-- ===== src/Frames.antt =====
-- kern/allocator/frame_allocator.c and kern/inc/allocator/frame_allocator.h: the stack of free
-- physical frames, linked through `free_frames_arr`.
mod Defs
pub mod FreeList
pub mod Init
pub mod Owners
mod Tests
unfoldable pub use Defs.*
