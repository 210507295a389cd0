-- ===== src/Tasks.antt =====
-- The life of tasks: kern/core/fork.c, kern/core/wait_vanish.c and `create_task` of kern/core/task.c.
mod Defs
pub mod Families
mod Tests
unfoldable pub use Defs.*
