-- ===== src/Scenario/Fake.antt =====
-- src/grpc.rs, its tests: the coordinator FakeCoord, and the test `spawn_simple` over a server and a
-- client of its own.
use Prim.Native.String.{◌++◌}
use rust_job_runner.Common.{
  String, Bool, true, false, Option, none, some, Result, ok, err, [], str_eq,
}
use rust_job_runner.Types.{DateTime, Job, running}
use rust_job_runner.Frames.{Bytes}
use rust_job_runner.Spawn.{Outcome, returned, panicked}
use rust_job_runner.Pb.{User}
use rust_job_runner.Pb
use rust_job_runner.Grpc.Service.{Coordinator}
use rust_job_runner.Client
use rust_job_runner.Setup.{read_identity, read_ca_cert}
use rust_job_runner.Setup.Server.{ServerOpts}
use rust_job_runner.Setup.Dial.{ClientTlsConfig, connect}

-- `unwrap`, on a result and on an option, and `assert_eq!`
abbrev pub unwrap : {A E : Type 0} → Result A E → Outcome A
unwrap (ok a) = returned a
unwrap (err e) = panicked

abbrev pub unwrap_some : {A : Type 0} → Option A → Outcome A
unwrap_some (some a) = returned a
unwrap_some none = panicked

abbrev pub assert : Bool → Outcome (Unit {0})
assert true = returned tt
assert false = panicked

-- The code behind a step that may have panicked.
abbrev pub and_then : {A B : Type 0} → Outcome A → (A → Outcome B) → Outcome B
and_then (returned a) next = next a
and_then panicked next = panicked

-- The job that `FakeCoord::spawn` gives; `now` is what `Utc::now()` gives.
abbrev pub fake_job : DateTime → Job
fake_job now = record {
  id = record { value = "job-id" };
  user = record { id = "test-user" };
  killed = none;
  started_at = now;
  ended_at = none;
  state = running (record { pid = 42 });
}

-- `impl Coordinator for FakeCoord`, which has no state: `todo!` panics.
abbrev pub fake_coord : {Rx : Type 0} → DateTime → Coordinator (Unit {0}) Rx
fake_coord now = record {
  spawn = λ s ctx spec. (s, returned (ok (fake_job now)));
  logs = λ s ctx job_id. (s, panicked);
  ps = λ s ctx job_id. (s, panicked);
  kill = λ s ctx job_id. (s, panicked);
}

-- The future of the shutdown, which ends when the sender of the oneshot has sent or is dropped.
pub data Oneshot : Type 0 where
  shutdown_rx : Oneshot

-- The task of the server is given by the options that it runs with.
pub record Test (Rx : Type 0) : Type 0 where
  pub bind : String
  pub server : ServerOpts (Coordinator (Unit {0}) Rx) Oneshot

abbrev pub is_owner : String → Option User → Bool
is_owner id none = false
is_owner id (some user) = str_eq user.id id

-- The two `assert_eq!`.
abbrev pub asserts : Pb.Job → Outcome (Unit {0})
asserts job =
    and_then (assert (str_eq job.id "job-id")) λ _. assert (is_owner "test-user" job.owner)

module _ {Rx : Type 0} (read : String → Result Bytes String) (debug : String → String) where
  -- `Test::new`; `bind` is the free address that the listener was given.
  unfoldable pub test_new : DateTime → String → Outcome (Test Rx)
  unfolding read_identity read_ca_cert
  test_new now bind =
      and_then (unwrap (read_identity read debug "data/tls/server.pem" "data/tls/server.key"))
        λ identity.
          and_then (unwrap (read_ca_cert read debug "data/tls/client_ca.pem")) λ client_ca.
            returned (record {
              bind = bind;
              server = record {
                bind = bind;
                identity = identity;
                client_ca = client_ca;
                coord = fake_coord now;
                shutdown = shutdown_rx;
              };
            })

  -- `parse_uri` is the parse of the endpoint. What the connection gives depends on the server.
  module _ (parse_uri : String → Result String String)
      (tls_config : String → ClientTlsConfig → Result (Unit {0}) String)
      (connects : Test Rx → String → ClientTlsConfig → Result Client.Store String) where
    -- `Test::new_client`
    unfoldable pub new_client : Test Rx → Outcome Client.Store
    unfolding read_identity read_ca_cert connect
    new_client test =
        and_then (unwrap (read_ca_cert read debug "data/tls/server_ca.pem")) λ server_ca.
          and_then (unwrap (read_identity read debug "data/tls/client1.pem" "data/tls/client1.key"))
            λ identity. and_then (unwrap (parse_uri ("https://" ++ test.bind))) λ endpoint. unwrap (
              connect tls_config (connects test) (record {
                endpoint = endpoint;
                domain = "localhost";
                identity = identity;
                server_ca = server_ca;
              }))

    -- `spawn_simple`: whether the test ends or panics.
    unfoldable pub spawn_simple : DateTime → String → Outcome (Unit {0})
    unfolding test_new new_client
    spawn_simple now bind = and_then (test_new now bind) λ test.
        and_then (new_client test) λ client.
          and_then (unwrap (client.spawn (record { name = "echo"; args = [] })))
            λ resp. and_then (unwrap_some resp.job) asserts
