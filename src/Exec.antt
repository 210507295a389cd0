-- ===== src/Exec.antt =====
-- kern/core/exec.c and copy_user_data of kern/syscalls/syscall_util.c: the name and the arguments of a
-- program on their way from user memory into the kernel.
mod Defs
pub mod Strings
pub mod Leaks
mod Tests
unfoldable pub use Defs.*
