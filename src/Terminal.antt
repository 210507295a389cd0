-- ===== src/Terminal.antt =====
-- kern/drivers/keyboard/keyboard.c and the readers of kern/syscalls/console_syscalls.c: from keys to
-- lines.
mod Defs
pub mod Lines
mod Tests
