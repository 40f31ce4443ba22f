-- ===== src/Setup/Server.antt =====
-- src/bin/server.rs, and `ServerOpts` of src/grpc.rs.
use rust_job_runner.Common.{String, Bool, false, Result, ◌>>=◌, ◌>>◌, List}
use rust_job_runner.Frames.{Bytes}
use rust_job_runner.Coord.{Memory, empty}
use rust_job_runner.Setup.{
  Failure, context, Identity, Certificate, CipherSuite, cipher_suites, read_identity, read_ca_cert,
}

pub record Args : Type 0 where
  pub cert : String
  pub key : String
  pub client_ca : String
  pub bind : String

-- The defaults that `clap` takes.
abbrev pub default_args : Args
default_args = record {
  cert = "data/tls/server.pem";
  key = "data/tls/server.key";
  client_ca = "data/tls/client_ca.pem";
  bind = "0.0.0.0:50051";
}

-- `futures::future::pending`, which never comes.
pub data Shutdown : Type 0 where
  pending : Shutdown

-- `C` is the coordinator and `S` the future of the shutdown.
pub record ServerOpts (C S : Type 0) : Type 0 where
  pub bind : String
  pub identity : Identity
  pub client_ca : Certificate
  pub coord : C
  pub shutdown : S

-- `tonic::transport::ServerTlsConfig`
pub record ServerTlsConfig : Type 0 where
  pub identity : Identity
  pub client_ca_root : Certificate
  pub client_auth_optional : Bool

-- All that the server is started with. The service that is added to it is that of Wire.Server behind
-- the interceptor, over `coord`.
pub record Listening (C S : Type 0) : Type 0 where
  pub suites : List CipherSuite
  pub tls : ServerTlsConfig
  pub coord : C
  pub bind : String
  pub shutdown : S

abbrev pub listening : {C S : Type 0} → ServerOpts C S → Listening C S
listening o = record {
  suites = cipher_suites;
  tls = record {
    identity = o.identity;
    client_ca_root = o.client_ca;
    client_auth_optional = false;
  };
  coord = o.coord;
  bind = o.bind;
  shutdown = o.shutdown;
}

-- `Server::tls_config` and `serve_with_shutdown`
module _ {C S : Type 0} (tls_config : ServerTlsConfig → Result (Unit {0}) String)
    (serve : Listening C S → Result (Unit {0}) String) where
  unfoldable pub run_server : ServerOpts C S → Result (Unit {0}) Failure
  unfolding context
  run_server o =
      let l = listening o in
      context "invalid tls config" (tls_config l.tls) >> context "server failed" (serve l)

unfoldable pub main :
    (ServerTlsConfig → Result (Unit {0}) String)
    → (Listening Memory Shutdown → Result (Unit {0}) String)
    → (String → Result Bytes String)
    → (String → String)
    → Args
    → Result (Unit {0}) Failure
unfolding read_identity read_ca_cert run_server empty
main tls_config serve read debug args = do
  identity ← read_identity read debug args.cert args.key
  client_ca ← read_ca_cert read debug args.client_ca
  run_server tls_config serve (record {
    bind = args.bind;
    identity = identity;
    client_ca = client_ca;
    coord = empty;
    shutdown = pending;
  })
