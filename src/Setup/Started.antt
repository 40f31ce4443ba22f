-- ===== src/Setup/Started.antt =====
-- src/bin/server.rs: what the server is started with.
use rust_job_runner.Common.{
  String, ◌≡◌, refl, ◌⊎◌, inl, inr, false, Result, ok, err, Result-cases, [], ◌∷◌,
}
use Prim.Native.String.{◌++◌}
use rust_job_runner.Frames.{Bytes}
use rust_job_runner.Coord.{Memory, empty}
use rust_job_runner.Setup.{Failure, context}
use rust_job_runner.Setup.Server.{
  Args, Shutdown, pending, ServerOpts, ServerTlsConfig, Listening, listening, main,
}

module _ (tls_config : ServerTlsConfig → Result (Unit {0}) String)
    (serve : Listening Memory Shutdown → Result (Unit {0}) String)
    (read : String → Result Bytes String) (debug : String → String) where
  -- What the files of the server hold.
  abbrev pub opts_of : Args → Bytes → Bytes → Bytes → ServerOpts Memory Shutdown
  opts_of args cert key ca = record {
    bind = args.bind;
    identity = record { cert = cert; key = key };
    client_ca = record { pem = ca };
    coord = empty;
    shutdown = pending;
  }

  -- The server is started with these files.
  pub record IsServed (args : Args) (l : Listening Memory Shutdown) : Type 0 where
    pub cert : Bytes
    pub key : Bytes
    pub ca : Bytes
    pub cert_read : read args.cert ≡ ok cert
    pub key_read : read args.key ≡ ok key
    pub ca_read : read args.client_ca ≡ ok ca
    pub served : l ≡ listening (opts_of args cert key ca)
    pub tls_valid : tls_config l.tls ≡ ok tt

  -- The error of a file that cannot be read.
  abbrev unread : String → String → String → Failure
  unread what path e = what ∷ ("failed to read " ++ debug path) ∷ e ∷ []

  -- Either the result of `main` is that of serving at the address of the arguments, over an empty
  -- table of jobs, with the identity and the CA that the three files hold and with a client
  -- certificate demanded of every client, in a configuration that tonic takes; or `main` ends with an
  -- error that is the same whatever serving would do: nothing is served before all files are read.
  main-serves :
      (args : Args)
      → ((l : Listening Memory Shutdown) × IsServed args l
          × (l.tls.client_auth_optional ≡ false)
          × (main tls_config serve read debug args ≡ context "server failed" (serve l)))
        ⊎ ((e : Failure) × ((other : Listening Memory Shutdown → Result (Unit {0}) String)
              → main tls_config other read debug args ≡ err e))
  unfolding main empty
  main-serves args = elim (Result-cases (read args.cert)) [
    | inr (e, bad) ↦ inr (unread "could not read cert" args.cert e, λ other. rw bad refl)
    | inl (cert, a) ↦ elim (Result-cases (read args.key)) [
      | inr (e, bad) ↦ inr (unread "could not read key" args.key e, λ other. rw (a, bad) refl)
      | inl (key, b) ↦ elim (Result-cases (read args.client_ca)) [
        | inr (e, bad) ↦
            inr (unread "could not read ca cert" args.client_ca e, λ other. rw (a, b, bad) refl)
        | inl (ca, c) ↦
            let l = listening (opts_of args cert key ca) in
            elim (Result-cases (tls_config l.tls)) [
              | inr (e, bad) ↦ inr ("invalid tls config" ∷ e ∷ [], λ other. rw (a, b, c, bad) refl)
              | inl (u, d) ↦ inl (
                l,
                record {
                  cert = cert;
                  key = key;
                  ca = ca;
                  cert_read = a;
                  key_read = b;
                  ca_read = c;
                  served = refl;
                  tls_valid = d;
                },
                refl,
                rw (a, b, c, d) refl,
              )
            ]
      ]
    ]
  ]
