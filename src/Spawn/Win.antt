-- ===== src/Spawn/Win.antt =====
-- src/proc/spawn/win.rs: a child process on Windows. The Win32 calls and the channel of the standard
-- library are arguments.
pub mod Handle
pub mod Args
pub mod Reader
pub mod Reading
pub mod Ending
pub mod Process
pub mod Balance
pub mod Killing
pub mod KillAnswers
pub mod Waiting
mod Tests
mod TaskTests
