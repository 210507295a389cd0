-- ===== src/ListHead.antt =====
-- kern/list/list.c: circular doubly linked lists of embedded `list_head` links. A link is named by
-- its address; memory is the two fields of the link at each address. A function that writes links
-- returns the new memory, its writes in the source's order.
mod Defs
pub mod Chain
pub mod Insert
pub mod Delete
pub mod Concat
pub mod Races
mod Tests
unfoldable pub use Defs.*
