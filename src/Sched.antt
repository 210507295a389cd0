-- ===== src/Sched.antt =====
-- kern/core/scheduler.c, kern/core/context.c and kern/core/sleep.c: which thread runs next. A queue
-- of threads is the list that `ListHead` shows its links to stand for.
mod Defs
pub mod Blocked
pub mod SleepQueue
pub mod Invariant
pub mod Sleeping
pub mod RunQueue
pub mod Fairness
mod Tests
unfoldable pub use Defs.*
