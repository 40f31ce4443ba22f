-- ===== src/Setup/Tests.antt =====
-- Starts of the two binaries over a small file system.
use rust_job_runner.Common.{
  String, ◌≡◌, refl, ◌⊎◌, some, Option, Result, ok, err, [], ◌∷◌, str_eq, if◌then◌else◌,
}
use rust_job_runner.Frames.{Bytes}
use rust_job_runner.Client.{Command, Shown, stop, failed, exited}
use rust_job_runner.Client
use rust_job_runner.Grpc.Status.{Status, status, internal}
use rust_job_runner.Coord.{Memory}
use rust_job_runner.Setup.Server
use rust_job_runner.Setup.Server.{Shutdown, ServerTlsConfig, Listening, run_server}
use rust_job_runner.Setup.Dial.{ClientTlsConfig, default_args}
use rust_job_runner.Setup.Dial
use rust_job_runner.Setup.Connected.{Connects, Fails, main-Connects}

-- Only the files of the defaults are there, and the key of the server is missing.
abbrev files : String → Result Bytes String
files p = if str_eq p "data/tls/server.key" then err "no such file" else ok (49 ∷ [])

abbrev debug : String → String
debug p = p

abbrev any_tls : ServerTlsConfig → Result (Unit {0}) String
any_tls tls = ok tt

abbrev in_use : Listening Memory Shutdown → Result (Unit {0}) String
in_use l = err "address in use"

server_without_key :
    Server.main any_tls in_use files debug Server.default_args
    ≡ err ("could not read key" ∷ "failed to read data/tls/server.key" ∷ "no such file" ∷ [])
unfolding Server.main
server_without_key = refl

abbrev down : Status
down = status internal ""

-- A server that fails every call.
abbrev broken_store : Client.Store
broken_store = record {
  spawn = λ r. err down;
  logs = λ r. err down;
  ps = λ r. err down;
  kill = λ r. err down;
}

abbrev fine : String → ClientTlsConfig → Result (Unit {0}) String
fine endpoint tls = ok tt

-- The server's certificate is one of `localhost`.
abbrev localhost : String → ClientTlsConfig → Result Client.Store String
localhost endpoint tls =
    if str_eq tls.domain_name "localhost" then ok broken_store else err "invalid certificate"

abbrev host : String → Option String
host endpoint = some "localhost"

client_of_broken_store :
    Dial.main fine localhost files debug host (default_args (Client.ps "j1")) ≡ stop (exited 1 down)
unfolding Dial.main Client.main Client.must_ok
client_of_broken_store = refl

client_of_other_domain :
    Dial.main fine localhost files debug host
      (record (default_args (Client.ps "j1")) { domain = some "other" })
    ≡ stop (failed "connect client")
unfolding Dial.main
client_of_other_domain = refl

main-Connects_example :
    Connects fine localhost files debug host (default_args (Client.ps "j1"))
    ⊎ Fails fine localhost files debug host (default_args (Client.ps "j1"))
main-Connects_example =
    main-Connects fine localhost files debug host (default_args (Client.ps "j1"))
