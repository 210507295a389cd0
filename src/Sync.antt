-- ===== src/Sync.antt =====
-- Condition variables and semaphores of the kernel: kern/sync/cond_var.c and kern/sync/sem.c.
pub mod Cond
mod Sem
pub mod Wakeups
pub mod Permits
mod Tests
unfoldable pub use Cond.*
unfoldable pub use Sem.*
