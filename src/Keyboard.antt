-- ===== src/Keyboard.antt =====
-- The circular buffer of key strokes, kern/drivers/keyboard/keyboard_circular_buffer.c.
mod Defs
pub mod Window
pub mod Lines
mod Tests
unfoldable pub use Defs.*
