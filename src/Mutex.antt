-- ===== src/Mutex.antt =====
-- kern/sync/mutex.c: the kernel's mutexes, which block a thread on a queue instead of spinning.
mod Defs
pub mod Threads
pub mod Exclusion
pub mod Queues
mod Tests
unfoldable pub use Defs.*
