-- ===== src/Grpc/Tests.antt =====
-- Requests of one caller.
use rust_job_runner.Common.{
  ℕ, String, ◌≡◌, ◌≢◌, refl, true, false, Option, none, some, Result, ok, err, List, [], ◌∷◌, arith,
  lookup, eq_iff, inl, inr,
}
use rust_job_runner.Common.Int.{pos}
use rust_job_runner.Types.{OsString, Ctx, Job, DateTime, exited}
use rust_job_runner.Frames.{Bytes, Frame, stdout, frame}
use rust_job_runner.Tracker.{Tracker, track}
use rust_job_runner.Tracker.Requests.{arrived}
use rust_job_runner.Coord.{Memory}
use rust_job_runner.Pb.{Timestamp, SpawnRequest, LogsRequest, PsRequest, KillRequest}
use rust_job_runner.Grpc.Requests.{Request, get_ctx, server_interceptor}
use rust_job_runner.Grpc.Stream.{Step}
use rust_job_runner.Grpc.Service.{Coordinator, Env, memory_coordinator, reply, log_reply, spec_of}
use rust_job_runner.Grpc.Service
use rust_job_runner.Grpc.Auth.{Shows, server_interceptor-ok}
use rust_job_runner.Coord.Access.{IsStranger}
use rust_job_runner.Grpc.Strangers.{IsUnknown, stranger_told_nothing}
use rust_job_runner.Grpc.Panics.{HasNoCode}

abbrev ann : Ctx
ann = record { user = record { id = "CN=ann" } }

abbrev parse : Bytes → Result String String
parse [] = err "empty"
parse (b ∷ bs) = ok "CN=ann"

abbrev claims_bob : Request PsRequest
claims_bob = record {
  peer_certs = some ((48 ∷ []) ∷ []);
  ctx = some (record { user = record { id = "CN=bob" } });
  message = record { job_id = "j1" };
}

abbrev from_ann : Request PsRequest
from_ann = record {
  peer_certs = some ((48 ∷ []) ∷ []);
  ctx = some ann;
  message = record { job_id = "j1" };
}

claims_bob-Shows : Shows parse claims_bob "CN=ann"
claims_bob-Shows = (48 ∷ [], refl, refl)

passes : server_interceptor parse claims_bob ≡ ok from_ann
unfolding server_interceptor
passes = refl

server_interceptor-ok_example :
    (subject : String) × Shows parse claims_bob subject
    × (get_ctx from_ann ≡ ok (record { user = record { id = subject } }))
    × (from_ann.message ≡ claims_bob.message)
server_interceptor-ok_example = server_interceptor-ok parse claims_bob from_ann passes

abbrev os : String → OsString
os s = []

abbrev timestamp : DateTime → Timestamp
timestamp t = record { seconds = pos t; nanos = 0 }

-- The job of ann was ended by a signal.
abbrev signalled : Job
signalled = record {
  id = record { value = "j1" };
  user = ann.user;
  killed = none;
  started_at = 5;
  ended_at = some 9;
  state = exited (record { code = none });
}

signalled-HasNoCode : HasNoCode signalled
signalled-HasNoCode = (record { code = none }, refl, refl)

abbrev table : Memory
table = record { jobs = ("j1", record (track signalled) { child_ok = false }) ∷ [] }

abbrev env : Env ℕ
env = record {
  new_id = record { value = "j2" };
  launch = λ c. err "no such file";
  now = 9;
  accepted = true;
  rx = arrived 8;
  answer = arrived (ok signalled);
}

abbrev C : Coordinator Memory ℕ
C = memory_coordinator env

abbrev asks : {A : Type 0} → Option Ctx → A → Request A
asks ctx a = record { peer_certs = none; ctx = ctx; message = a }

abbrev to_spawn : Option Ctx → String → Request SpawnRequest
to_spawn ctx name = asks ctx (record { name = name; args = [] })

abbrev to_log : Option Ctx → String → Request LogsRequest
to_log ctx id = asks ctx (record { job_id = id })

abbrev to_ps : Option Ctx → String → Request PsRequest
to_ps ctx id = asks ctx (record { job_id = id })

abbrev to_kill : Option Ctx → String → Request KillRequest
to_kill ctx id = asks ctx (record { job_id = id })

named : (to_spawn (some ann) "ls").message.name ≢ ""
named = ground (arith, eq_iff "ls" "")

has_id : (to_ps (some ann) "j1").message.job_id ≢ ""
has_id = ground (arith, eq_iff "j1" "")

abbrev tracker : Tracker
tracker = record (track signalled) { child_ok = false }

found : lookup "j1" table.jobs ≡ some tracker
unfolding lookup
found = refl

owned : tracker.job.user.id ≡ ann.user.id
unfolding track
owned = refl

tracked-HasNoCode : HasNoCode tracker.job
unfolding track
tracked-HasNoCode = signalled-HasNoCode

abbrev line : Frame
line = record { kind = stdout; bs = 104 ∷ 105 ∷ [] }

abbrev channel_closed : String
channel_closed = "channel closed"

abbrev gone_reader : List Step
gone_reader = (some (frame line), true) ∷ (some (frame line), false) ∷ (none, true) ∷ []

abbrev bob : Ctx
bob = record { user = record { id = "CN=bob" } }

ann_not_bob : tracker.job.user.id ≢ bob.user.id
unfolding track
ann_not_bob = ground (arith, eq_iff "CN=ann" "CN=bob")

bob-IsStranger : IsStranger table bob (record { value = "j1" })
bob-IsStranger = inr (tracker, found, ann_not_bob)

missing : lookup "j7" table.jobs ≡ none
unfolding lookup
missing = refl

has_other_id : (to_kill (some bob) "j7").message.job_id ≢ ""
has_other_id = ground (arith, eq_iff "j7" "")

-- Bob asks for a job of ann, and for one that does not exist.
stranger_told_nothing_example :
    IsUnknown table (Service.logs C os timestamp table (to_log (some bob) "j1"))
    × IsUnknown table (Service.ps C os timestamp table (to_ps (some bob) "j1"))
    × IsUnknown table (Service.kill C os timestamp table (to_kill (some bob) "j7"))
stranger_told_nothing_example =
    stranger_told_nothing env os timestamp table bob (to_log (some bob) "j1")
      (to_ps (some bob) "j1") (to_kill (some bob) "j7") (refl, has_id) (refl, has_id)
      (refl, has_other_id) bob-IsStranger bob-IsStranger (inl missing)
