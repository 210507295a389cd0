-- ===== src/Launch.antt =====
-- do_exec of kern/core/exec.c and load_task of kern/core/task.c: a task goes over to a new program.
mod Defs
pub mod Loading
pub mod Endings
mod Tests
