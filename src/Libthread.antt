-- ===== src/Libthread.antt =====
-- The user thread library of user/libthread/: condition variables, the readers-writer lock, joins.
mod Cond
mod Rwlock
mod Tcb
mod Runs
pub mod Signals
pub mod Joins
mod Counts
pub mod Writers
mod Tests
unfoldable pub use Cond.*
unfoldable pub use Tcb.*
unfoldable pub use Rwlock.*
