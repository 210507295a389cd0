-- ===== src/Console.antt =====
-- The console driver, kern/drivers/console/console.c and console_util.c.
mod Defs
pub mod Cursor
pub mod Scroll
pub mod Colors
mod Tests
unfoldable pub use Defs.*
