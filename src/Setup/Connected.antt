-- ===== src/Setup/Connected.antt =====
-- src/bin/client.rs: whom the client talks to.

use rust_job_runner.Common.{
  String, ◌≡◌, refl, ◌⊎◌, inl, inr, Option, some, Result, ok, Result-cases, Option-cases,
}
use rust_job_runner.Frames.{Bytes}
use rust_job_runner.Client.{Shown, failed, stop}
use rust_job_runner.Client
use rust_job_runner.Setup.Dial.{Args, ClientTlsConfig, or_else, main}

module _ (tls_config : String → ClientTlsConfig → Result (Unit {0}) String)
    (connects : String → ClientTlsConfig → Result Client.Store String)
    (read : String → Result Bytes String) (debug : String → String)
    (host : String → Option String) where
  abbrev pub tls_of : String → Bytes → Bytes → Bytes → ClientTlsConfig
  tls_of domain cert key ca = record {
    domain_name = domain;
    ca_certificate = record { pem = ca };
    identity = record { cert = cert; key = key };
  }

  -- The client has its connection.
  pub record IsConnected (args : Args) (store : Client.Store) : Type 0 where
    pub domain : String
    pub cert : Bytes
    pub key : Bytes
    pub ca : Bytes
    pub domain_known : or_else args.domain (host args.endpoint) ≡ some domain
    pub ca_read : read args.server_ca ≡ ok ca
    pub cert_read : read args.cert ≡ ok cert
    pub key_read : read args.key ≡ ok key
    pub tls_valid : tls_config args.endpoint (tls_of domain cert key ca) ≡ ok tt
    pub connected : connects args.endpoint (tls_of domain cert key ca) ≡ ok store

  -- The two ways that a run of the client can take.
  abbrev pub Connects : Args → Type 0
  Connects args =
      (store : Client.Store) × IsConnected args store
      × (main tls_config connects read debug host args ≡ Client.main store args.command)

  abbrev pub Fails : Args → Type 0
  Fails args =
      (c : String) × ((command : Client.Command)
        → main tls_config connects read debug host (record args { command = command })
          ≡ stop (failed c))

  -- The end of `main`, with its files read.
  connect-cases :
      (args : Args) (domain : String) (ca cert key : Bytes)
      → or_else args.domain (host args.endpoint) ≡ some domain
      → read args.server_ca ≡ ok ca
      → read args.cert ≡ ok cert
      → read args.key ≡ ok key
      → Connects args ⊎ Fails args
  unfolding main
  connect-cases args domain ca cert key d a b c =
      let t = tls_of domain cert key ca in
      elim (Result-cases (tls_config args.endpoint t)) [
        | inr (e, bad) ↦ inr ("connect client", λ cmd. rw (d, a, b, c, bad) refl)
        | inl (u, f) ↦ elim (Result-cases (connects args.endpoint t)) [
          | inr (e, bad) ↦ inr ("connect client", λ cmd. rw (d, a, b, c, f, bad) refl)
          | inl (store, g) ↦ inl (
            store,
            record {
              domain = domain;
              cert = cert;
              key = key;
              ca = ca;
              domain_known = d;
              ca_read = a;
              cert_read = b;
              key_read = c;
              tls_valid = f;
              connected = g;
            },
            rw (d, a, b, c, f, g) refl,
          )
        ]
      ]

  -- Either the client runs its command over a connection to the endpoint, made with its own identity,
  -- and with the server's certificate verified by the CA of the arguments for the domain of the
  -- arguments, or the endpoint's host if they have none; or it ends with an error, and
  -- writes nothing to its outputs, whatever the command is.
  pub main-Connects : (args : Args) → Connects args ⊎ Fails args
  unfolding main
  main-Connects args = elim (Option-cases (or_else args.domain (host args.endpoint))) [
    | inl bad ↦ inr ("domain could not be inferred from endpoint", λ cmd. rw bad refl)
    | inr (domain, d) ↦ elim (Result-cases (read args.server_ca)) [
      | inr (e, bad) ↦ inr ("could not read ca cert", λ cmd. rw (d, bad) refl)
      | inl (ca, a) ↦ elim (Result-cases (read args.cert)) [
        | inr (e, bad) ↦ inr ("could not read cert", λ cmd. rw (d, a, bad) refl)
        | inl (cert, b) ↦ elim (Result-cases (read args.key)) [
          | inr (e, bad) ↦ inr ("could not read key", λ cmd. rw (d, a, b, bad) refl)
          | inl (key, c) ↦ connect-cases args domain ca cert key d a b c
        ]
      ]
    ]
  ]
