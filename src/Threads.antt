-- ===== src/Threads.antt =====
-- The table of threads, kern/core/thread.c, and the system calls of kern/syscalls/thread_syscalls.c
-- that look threads up in it.
mod Defs
mod Calls
mod Buckets
pub mod Table
pub mod Yield
mod Deschedule
pub mod Runnable
mod Tests
unfoldable pub use Defs.*
unfoldable pub use Calls.*
