-- ===== src/Idt.antt =====
-- The interrupt descriptor table: kern/interrupts/idt_entry.c, and the tables of handlers that
-- kern/interrupts/interrupt_handlers.c and kern/syscalls/syscall_handlers.c install.
mod Defs
mod Tables
pub mod Gates
pub mod Installed
mod Tests
unfoldable pub use Defs.*
unfoldable pub use Tables.*
