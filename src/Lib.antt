-- ===== src/Lib.antt =====
-- A model of the kernel of kern/, from its lists, frames, scheduler, locks and virtual memory
-- to the life of tasks, the table of threads, faults, the table of interrupts, exec with its
-- loader and the console, and of the locks and joins of its user library in user/libthread/.
--
-- The parts and their files:
-- - ListHead: the intrusive lists of kern/list/list.c, as functions on a memory of `next` and
--   `prev` links. Links are addresses; what an entry holds beside its links is not modelled.
--   `IsList` says which sequence of nodes a head stands for.
-- - Frames: the free list of kern/allocator/frame_allocator.c. `allocate_frame` and
--   `deallocate_frame` are steps of `Frames.Owners.Step`, in any order that callers choose, as
--   long as a caller returns only what it holds. The number of frames is a parameter; an
--   address space of 32 bits has room for 2^20 - 4096 above the kernel.
-- - Sched: kern/core/scheduler.c, context.c and sleep.c. A thread is a number; the run queue
--   and the sleep queue are lists, and `Sched.RunQueue` sets the links of ListHead beside the
--   first. `context_switch` is the choice of the next thread with its effect on statuses and
--   queues, and the switch of stacks is the change of `curr`. `schedule_sleep` is two steps,
--   since it releases its mutex between them.
-- - Mutex: kern/sync/mutex.c on the scheduler. `mutex_lock` is a round of its loop, from one
--   switch of the processor to the next; `Mutex.Threads` interleaves the rounds of any number
--   of threads. A waiting thread goes on when a call has put it into the run queue.
-- - Sync: kern/sync/cond_var.c and sem.c on the scheduler. A condition variable is a validity
--   and a list of threads; `Sync.Permits` interleaves the calls of any number of threads.
-- - Vm: kern/vm/vm.c, the frame allocator's client, with the checks of
--   kern/syscalls/syscall_util.c and the handlers of kern/syscalls/memory_syscalls.c. A state
--   holds the words of directories and tables, the contents of frames, the reference counts and
--   the free list; a function is a step from state to state that may stop the kernel at a
--   failed assertion. `Vm.Entry` has the flags of kern/inc/vm/vm.h.
-- - Keyboard: kern/drivers/keyboard/keyboard_circular_buffer.c, the circular buffer of key
--   strokes. Its search loops run on fuel; one unit more than the size of the buffer is enough.
-- - Terminal: kern/drivers/keyboard/keyboard.c and the readers of
--   kern/syscalls/console_syscalls.c, on Keyboard, Sync and Sched. A step of a reader is the
--   stretch between two waits.
-- - Libthread: user/libthread/cond_var.c, rwlock.c and thread.c. The readers-writer lock holds
--   its mutex but for its waits, so a step is the stretch between two waits; `Libthread.Runs`
--   interleaves them. Its counters are ints, and the runs are those in which neither leaves the
--   positive ints. An exit is two steps, since the mutex of the block is released between them.
-- - Tasks: kern/core/fork.c, kern/core/wait_vanish.c and create_task of kern/core/task.c, each
--   definition a call, or the end of one, that no other call interrupts. In do_vanish that holds
--   from where the task enters the list of its parent's dead children. The hand-over of children
--   to the init task runs with interrupts on, since mutex_lock turns them on, and is left out but
--   for `ListHead.Races`, which has an exit in the middle of its concat_lists.
-- - Threads: the hash map of kern/core/thread.c, and yield, deschedule and make_runnable of
--   kern/syscalls/thread_syscalls.c. `Threads.Table.Run` sets the map beside a function from ids
--   to threads.
-- - Console: kern/drivers/console/console.c and console_util.c, on the bytes of video memory.
-- - Exec: the copies of a program's arguments in kern/core/exec.c, and copy_user_data of
--   kern/syscalls/syscall_util.c, which reads the memory of Vm. The heap of the kernel is the
--   list of addresses that `smalloc` will give and of those that `sfree` was given.
-- - Loader: kern/loader/loader.c on a list of files, which the build makes and which is a
--   parameter; copy_user_args of kern/core/task.c on the bytes of user memory; and readfile of
--   kern/syscalls/misc_syscalls.c, which stores to frames of Vm (`Loader.Buffer`).
--   `Loader.Elf` reads the headers of a file, `Loader.Programs` writes its segments.
-- - Launch: do_exec of kern/core/exec.c and load_task of kern/core/task.c, the calls of Exec,
--   Loader and Vm in their order. The memory of the program that is loaded is a function from
--   addresses to bytes, apart from the frames of Vm.
-- - Swexn: kern/interrupts/fault_handlers.c, swexn of kern/syscalls/thread_syscalls.c, the
--   register functions of kern/syscalls/syscall_util.c, and what
--   kern/interrupts/fault_handlers_asm.S and kern/inc/syscalls/syscall_util_asm.h push and pop.
--   A kernel stack is a function from the distance to its base, in words. The page fault
--   handler works on a state of Vm beside it.
-- - Idt: kern/interrupts/idt_entry.c, interrupt_handlers.c and kern/syscalls/syscall_handlers.c.
--   The descriptor table is a memory of bytes; `Idt.Tables` lists the arguments of each call of
--   `add_idt_entry`, and `Idt.Gates` says what the processor reads from the bytes.
-- - Base: tests on numbers, lists and arrays that all of these share.
--
-- Numbers are natural numbers; where the source's 32-bit arithmetic wraps around, `% 2 ^ 32` is
-- written out. Masks of one bit are a division and a remainder, and `addr | flags` is a sum, as
-- addresses of pages have no low bits. Loops over the entries of a table are structural. The
-- loops over pages of `map_segment`, `unmap_new_pages` and `is_memory_range_mapped`, and the
-- walk of `check_physical_memory`, run on fuel; one unit more than the pages or frames they
-- visit is enough.
--
-- How the parts use each other: Vm calls Frames; Mutex, Sync and Threads stand on Sched, whose
-- run queue Sched.RunQueue takes down to the links of ListHead; Swexn, Exec and Loader read
-- user memory and its mappings in Vm; Launch composes Exec, Loader and Vm; Terminal composes
-- Keyboard, Sync and Sched. Tasks has lists of its own for children, threads and waiters.
--
-- Outside the model: `smalloc`, `smemalign` and `sfree` of the memory manager (the answers are
-- a list in the state), the locks of single frames (a lock and its unlock stand within one
-- call), the translation buffer and the control registers but cr3, the rest of the assembly,
-- devices, and the rest of the user libraries.
pub mod Base
pub mod Console
pub mod Exec
pub mod Frames
pub mod Idt
pub mod Keyboard
pub mod Launch
pub mod Libthread
pub mod ListHead
pub mod Loader
pub mod Mutex
pub mod Sched
pub mod Swexn
pub mod Sync
pub mod Tasks
pub mod Terminal
pub mod Threads
pub mod Vm
