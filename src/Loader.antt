-- ===== src/Loader.antt =====
-- kern/loader/loader.c, the copies of kern/core/task.c and readfile of kern/syscalls/misc_syscalls.c:
-- programs and their arguments in user memory.
mod Memory
mod Args
mod Strings
mod Frame
pub mod Arguments
mod Files
mod Programs
pub mod Segments
pub mod Image
mod Elf
pub mod Sections
mod Buffer
mod Readfile
mod Tests
unfoldable pub use Args.*
unfoldable pub use Files.*
unfoldable pub use Programs.*
unfoldable pub use Elf.*
