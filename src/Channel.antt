-- ===== src/Channel.antt =====
-- tokio's `mpsc` channels, which the program only calls: the operations that it uses with what
-- their documentation promises, and a bounded queue that keeps the promises.
mod Defs
mod Fixed
pub use Defs.*
pub use Fixed.{Bounded, bounded}
