-- ===== src/Swexn.antt =====
-- Faults and software exception handlers: kern/interrupts/fault_handlers.c, the entry and return
-- sequences of its assembly, swexn of kern/syscalls/thread_syscalls.c, and the register functions of
-- kern/syscalls/syscall_util.c.
mod Defs
mod Handlers
pub mod Resume
pub mod Faults
mod Tests
unfoldable pub use Defs.*
unfoldable pub use Handlers.*
