-- ===== src/Setup/Dial.antt =====
-- src/bin/client.rs up to the connection, and `ClientOpts` of src/grpc.rs.
use rust_job_runner.Common.{String, Option, none, some, Result, ok, err, ◌>>=◌, ok_or, [], ◌∷◌}
use rust_job_runner.Frames.{Bytes}
use rust_job_runner.Client.{Command, Shown, failed, stop}
use rust_job_runner.Client
use rust_job_runner.Setup.{
  Failure, context, add_context, Identity, Certificate, read_identity, read_ca_cert,
}

pub record Args : Type 0 where
  pub cert : String
  pub key : String
  pub server_ca : String
  pub domain : Option String
  pub endpoint : String
  pub command : Command

-- The defaults that `clap` takes.
abbrev pub default_args : Command → Args
default_args command = record {
  cert = "data/tls/client1.pem";
  key = "data/tls/client1.key";
  server_ca = "data/tls/server_ca.pem";
  domain = none;
  endpoint = "https://localhost:50051";
  command = command;
}

pub record ClientOpts : Type 0 where
  pub endpoint : String
  pub domain : String
  pub identity : Identity
  pub server_ca : Certificate

-- `tonic::transport::ClientTlsConfig`
pub record ClientTlsConfig : Type 0 where
  pub domain_name : String
  pub ca_certificate : Certificate
  pub identity : Identity

abbrev pub client_tls : ClientOpts → ClientTlsConfig
client_tls o = record {
  domain_name = o.domain;
  ca_certificate = o.server_ca;
  identity = o.identity;
}

-- `.or_else(…)`
abbrev pub or_else : Option String → Option String → Option String
or_else none other = other
or_else (some d) other = some d

-- `Endpoint::tls_config` and `connect`, of which the latter gives what the server then replies.
module _ (tls_config : String → ClientTlsConfig → Result (Unit {0}) String)
    (connects : String → ClientTlsConfig → Result Client.Store String) where
  -- `ClientOpts::connect`
  unfoldable pub connect : ClientOpts → Result Client.Store Failure
  unfolding context
  connect o = do
    _ ← context "invalid tls config" (tls_config o.endpoint (client_tls o))
    context "connect failure" (connects o.endpoint (client_tls o))

  -- `Uri::host` is the argument `host`.
  unfoldable pub set_up :
      (String → Result Bytes String)
      → (String → String)
      → (String → Option String)
      → Args
      → Result Client.Store Failure
  unfolding read_identity read_ca_cert connect add_context
  set_up read debug host args = do
    domain ←
        ok_or (or_else args.domain (host args.endpoint))
          ("domain could not be inferred from endpoint" ∷ [])
    server_ca ← read_ca_cert read debug args.server_ca
    identity ← read_identity read debug args.cert args.key
    add_context "connect client" (
        connect (record {
          endpoint = args.endpoint;
          domain = domain;
          identity = identity;
          server_ca = server_ca;
        }))

  -- An error of `main` is told by its outermost context.
  abbrev pub told : Failure → Shown
  told [] = stop (failed "")
  told (c ∷ rest) = stop (failed c)

  -- `main`
  abbrev pub with_store : Command → Result Client.Store Failure → Shown
  with_store command (ok store) = Client.main store command
  with_store command (err e) = told e

  unfoldable pub main :
      (String → Result Bytes String) → (String → String) → (String → Option String) → Args → Shown
  unfolding set_up
  main read debug host args = with_store args.command (set_up read debug host args)
