-- ===== src/Vm.antt =====
-- kern/vm/vm.c: page directories, page tables, reference counts of frames, copy-on-write.
pub mod Entry
mod Defs
mod Tables
mod Mapping
mod Access
pub mod Cow
pub mod Endings
pub mod Fault
pub mod Protect
pub mod Ranges
mod Tests
unfoldable pub use Defs.*
unfoldable pub use Tables.*
unfoldable pub use Mapping.*
unfoldable pub use Access.*
