-- ===== src/Lib.antt =====
-- A verification library for the gRPC job runner: a server that runs commands for users who show a
-- client certificate, keeps each job's output in memory, and streams it to the job's owner.
--
-- The parts, from the inside out, and the files that model them (paths are from the repository's
-- root):
--   Common     tests, lists, results, string-keyed maps and integers that the parts share
--   Types      src/proc/types.rs: JobSpec (Spec) and the states of a Job (Life)
--   Frames     src/proc/coord.rs: Frame, FrameEvent, TrackerError
--   Channel    tokio's mpsc channels: the interface `Mpsc` with the documented behaviour that the
--              code relies on, and a bounded queue `bounded` that has this behaviour
--   Output     src/proc/coord.rs: JobTracker::consume_output, which cuts a stream into frames
--   Tracker    src/proc/coord.rs: JobTracker::wait, a select loop that takes frames, kill requests
--              and the exit of the child, one round per `step`; Requests has JobTracker::kill and
--              FrameBroadcaster::stream, and Lifecycle is the life of a job as a step relation
--   Relay      src/proc/coord.rs: FrameRelay, one task per reader of the logs
--   Broadcast  src/proc/coord.rs: FrameBroadcaster::bcast, over the interface `RelayPort`, which
--              the relays of Relay fill in Clients; System is the broadcaster with its relays
--   Runtime    src/proc/coord.rs, JobTracker::track: the tracker, the channel of frames and the
--              broadcaster of one job as one system, each step a step of one task
--   Spawn      src/proc/spawn/mod.rs: Opts::spawn and TokioChild, on platforms other than Windows;
--              the trait Child (Port), with the two types that fill it (Filled);
--              Win is src/proc/spawn/win.rs: Handle, WinArgs (Args), Child::spawn with its pipes
--              (Process), the reader of an output pipe, its thread and its future (Reader), and the
--              futures KillChild (Killing) and WaitChild (Waiting) with their threads
--   Coord      src/proc/coord.rs: MemoryCoordinator, the table of jobs with spawn, logs, ps, kill;
--              Table is what a call does to the entry under each key, and Purged and FreeIds compare
--              the table with that of a history without the spawns of other users
--   Fleet      src/proc/coord.rs: MemoryCoordinator over the tasks of all jobs, with the kill requests
--              and the requests for logs that wait in the channels of each job; Isolation is what
--              one user can do to the job of another, Watched what `ps` shows of a job while all
--              tasks run, Alone and Undisturbed compare a history with the one without the calls
--              of other users, and Kills is what comes of the kill requests
--   Scenario   src/proc/coord.rs, its tests: FrameDemux::consume (Demuxed) and wait_on_job (Awaited),
--              and src/grpc.rs, its test spawn_simple with FakeCoord (Fake, Faked)
--   Pb         src/pb/jobs.rs: the messages
--   Grpc       src/grpc.rs: the interceptor and validation (Requests), the conversions (Convert),
--              the errors (Status), the four handlers over any coordinator (Service) and the task
--              behind `logs` (Stream)
--   Client     src/bin/client.rs: the four commands, over what the server replies; Show is the
--              print of a job's state, and EndToEnd and Replayed the way of the output from the
--              child's streams
--   Wire       src/pb/jobs.rs: the stubs of StoreClient (Stub) and the routes of StoreServer
--              (Server), with their configuration (Config), over the interface `Tonic` of what tonic
--              and prost do in between, which Plain fills; Callers, Commands, Journey, OwnerLogs,
--              OwnerSees and Unseen join them with Grpc, Client and Coord
--   Setup      src/bin/server.rs, src/utils.rs, the set-up of src/grpc.rs (Server) and that of
--              src/bin/client.rs (Dial), over the file system and the libraries as arguments
--
-- How the parts interact: a handler of Grpc.Service asks a `Coordinator`, which Coord implements; a
-- spawned child gets a tracker; the readers of Output feed the tracker, the tracker feeds the
-- broadcaster, the broadcaster its relays, a relay the task of Grpc.Stream, and that the client.
-- Runtime is this flow inside one job, Fleet joins it with the table of jobs, and Wire is the way
-- between a client and the handlers.
--
-- Concurrency: a task is a state with one function per branch of its `select!`, and a run is a list
-- of events in any order, with what each future gave. Time, new ids, certificates, the launch of a
-- process and the answers of tokio's oneshots and timers are arguments. A run has no fuel: it ends
-- with its list. The only fuel is that of the print of a `usize`, which has at most twenty digits.
-- Waits for a lock, and the capacity of the channels between the tracker and its readers, are not
-- modelled: no state depends on them but the moment of a step.
--
-- Not modelled: the parse of the command line by clap and the set-up of tracing; the tests of
-- src/proc/spawn/win.rs, which try out the Win32 calls, and those of src/proc/types.rs, which
-- check one call each; what tonic, prost, rustls and the Win32 calls do inside; src/build.rs,
-- which runs the protobuf compiler; and what goes to the log, but for the status that `must_ok` of the
-- client logs.
pub mod Common
pub mod Types
pub mod Frames
pub mod Channel
pub mod Relay
pub mod Broadcast
pub mod Output
pub mod Tracker
pub mod Runtime
pub mod Spawn
pub mod Coord
pub mod Fleet
pub mod Scenario
pub mod Pb
pub mod Grpc
pub mod Client
pub mod Wire
pub mod Setup
