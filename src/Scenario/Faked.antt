-- ===== src/Scenario/Faked.antt =====
-- src/grpc.rs, its tests: when `spawn_simple` passes.
use Prim.Native.String.{◌++◌}
use rust_job_runner.Common.{
  String, ◌≡◌, ◌≢◌, refl, ap, ◌∙◌, some, Result, ok, List, [], ◌∷◌, arith, eq_iff,
}
use rust_job_runner.Types.{OsString, DateTime}
use rust_job_runner.Frames.{Bytes}
use rust_job_runner.Spawn.{Outcome, returned}
use rust_job_runner.Pb.{Timestamp, SpawnRequest, SpawnResponse}
use rust_job_runner.Grpc.Status.{Status}
use rust_job_runner.Grpc.Convert.{to_job, to_state, to_user, with_state}
use rust_job_runner.Grpc.Service.{reply}
use rust_job_runner.Client
use rust_job_runner.Setup.Dial.{ClientTlsConfig}
use rust_job_runner.Wire.{Codec, Tonic, given}
use rust_job_runner.Wire.Callers.{server_of, connected_to, IsSmall}
use rust_job_runner.Wire.Served.{Answers}
use rust_job_runner.Wire.Commands.{spawn-replies}
use rust_job_runner.Scenario.Fake.{
  unwrap, unwrap_some, and_then, fake_job, fake_coord, shutdown_rx, Test, asserts, spawn_simple,
}

-- What the six files of the test hold.
pub record Files : Type 0 where
  pub server_cert : Bytes
  pub server_key : Bytes
  pub client_ca : Bytes
  pub server_ca : Bytes
  pub client_cert : Bytes
  pub client_key : Bytes

abbrev pub IsReadable : (String → Result Bytes String) → Files → Type 0
IsReadable read f =
    (read "data/tls/server.pem" ≡ ok f.server_cert)
    × (read "data/tls/server.key" ≡ ok f.server_key)
    × (read "data/tls/client_ca.pem" ≡ ok f.client_ca)
    × (read "data/tls/server_ca.pem" ≡ ok f.server_ca)
    × (read "data/tls/client1.pem" ≡ ok f.client_cert)
    × (read "data/tls/client1.key" ≡ ok f.client_key)

-- The server of the test, and the TLS of its client.
abbrev pub test_of : {Rx : Type 0} → Files → DateTime → String → Test Rx
test_of f now bind = record {
  bind = bind;
  server = record {
    bind = bind;
    identity = record { cert = f.server_cert; key = f.server_key };
    client_ca = record { pem = f.client_ca };
    coord = fake_coord now;
    shutdown = shutdown_rx;
  };
}

abbrev pub tls_of : Files → ClientTlsConfig
tls_of f = record {
  domain_name = "localhost";
  ca_certificate = record { pem = f.server_ca };
  identity = record { cert = f.client_cert; key = f.client_key };
}

abbrev pub echo : SpawnRequest
echo = record { name = "echo"; args = [] }

echo_named : echo.name ≢ ""
echo_named e = absurd (ground (arith, eq_iff "echo" ""))

module _ {B Rx Encodings : Type 0} {C : Codec B} (T : Tonic B Rx C) (no_encodings : Encodings)
    (parse : Bytes → Result String String) (os : String → OsString)
    (timestamp : DateTime → Timestamp) (messages : Rx → List Client.Message) where
  -- The client of the test, with the certificate `cert`.
  abbrev pub client_of : DateTime → Bytes → Client.Store
  client_of now cert =
      connected_to T no_encodings parse os timestamp messages (fake_coord now) tt (some (cert ∷ []))

  -- The reply to the request of the test.
  abbrev pub echo_reply : DateTime → Outcome (Result SpawnResponse Status)
  echo_reply now = reply timestamp (λ j. record { job = some j }) (returned (ok (fake_job now)))

  module _ (read : String → Result Bytes String) (debug : String → String)
      (parse_uri : String → Result String String)
      (tls_config : String → ClientTlsConfig → Result (Unit {0}) String)
      (connects : Test Rx → String → ClientTlsConfig → Result Client.Store String) where
    set_up :
        (f : Files) (now : DateTime) (bind endpoint : String) (store : Client.Store)
        → IsReadable read f
        → parse_uri ("https://" ++ bind) ≡ ok endpoint
        → tls_config endpoint (tls_of f) ≡ ok tt
        → connects (test_of f now bind) endpoint (tls_of f) ≡ ok store
        → spawn_simple read debug parse_uri tls_config connects now bind
          ≡ and_then (unwrap (store.spawn echo)) (λ resp. and_then (unwrap_some resp.job) asserts)
    unfolding spawn_simple
    set_up f now bind endpoint store (a, b, c, d, e, g) u t s = rw (a, b, c, d, e, g, u, t, s) refl

    asserts-echo :
        (broken : Status) (now : DateTime)
        → and_then
            (unwrap (given broken (echo_reply now)))
            (λ resp. and_then (unwrap_some resp.job) asserts)
          ≡ returned tt
    unfolding reply to_job to_state to_user with_state
    asserts-echo broken now = refl

    -- The test `spawn_simple` passes, when its six files can be read, tonic takes the TLS configuration of
    -- its client, and the connection leads to its server with a certificate that the server can read: the
    -- job of FakeCoord comes back over the network with its id and its owner. The request and the reply
    -- are within tonic's limit.
    spawn_simple_passes :
        (f : Files) (now : DateTime) (bind endpoint : String) (cert : Bytes) (subject : String)
        → IsReadable read f
        → parse_uri ("https://" ++ bind) ≡ ok endpoint
        → tls_config endpoint (tls_of f) ≡ ok tt
        → connects (test_of f now bind) endpoint (tls_of f) ≡ ok (client_of now cert)
        → parse cert ≡ ok subject
        → IsSmall T no_encodings parse os timestamp messages (C.spawn_request.encode echo)
        → Answers T
            (server_of T no_encodings parse os timestamp messages (fake_coord now))
            parse
            C.spawn_response
            (echo_reply now)
        → spawn_simple read debug parse_uri tls_config connects now bind ≡ returned tt
    spawn_simple_passes f now bind endpoint cert subject files uri tls link known small answers =
        set_up f now bind endpoint (client_of now cert) files uri tls link
        ∙ ap (λ r. and_then (unwrap r) (λ resp. and_then (unwrap_some resp.job) asserts))
            (spawn-replies T no_encodings parse os timestamp messages (fake_coord now) tt cert
              subject known echo echo_named small answers)
        ∙ asserts-echo T.broken now
