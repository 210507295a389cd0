-- ===== src/Vm/Tests.antt =====
-- Witnesses: one process whose directory at 4096 has one table, at 8192, with three of its pages
-- mapped: a private one, one that two tables share, and one that is read-only and not marked.
use p.Base.{
  ℕ, ◌+◌, ◌*◌, ◌-◌, ◌^◌, ◌≡◌, refl, true, false, some, [], if◌then◌else◌, ◌==◌, arith, update,
}
use p.Frames.{Frames, ok, user_mem_start, allocate_frame}
use p.Vm.Entry.{entry_default, entry_addr, present, user_mode, read_write, cow_mode}
use p.Vm.Defs.{Vm}
use p.Vm.Tables.{make_pt_cow}
use p.Vm.Mapping.{is_addr_cow, handle_cow, success}
use p.Vm.Access.{
  is_memory_writable, is_page_mapped, is_memory_range_mapped, new_pages_handler, unmapped,
}
use p.Vm.Cow.{with_table}
use p.Vm.Fault.{entry_at, copied, handle_cow_shared}
use p.Vm.Protect.{make_pt_cow-is_memory_writable}
use p.Vm.Endings.{has_ended, new_pages_handler-ends}
use p.Vm.Ranges.{is_memory_range_mapped_lem}

abbrev frame : ℕ → ℕ
frame i = user_mem_start + i * 4096

abbrev words : ℕ → ℕ → ℕ
words page i =
    if page == 4096
    then if i == 4 then 8192 + 7 else entry_default
    else if i == 0
    then frame 1 + (present + user_mode + cow_mode)
    else if i == 1
    then frame 2 + (present + user_mode + cow_mode)
    else if i == 2
    then frame 1 + (present + user_mode)
    else entry_default

abbrev memory : Frames → Vm
memory f = record {
  frames = f;
  frame_ref_count = λ i. if i == 2 then 2 else 1;
  word = words;
  page = λ _ i. i;
  cr3 = 4096;
  heap = [];
}

abbrev boot : Frames
boot = record { free_frames_arr = λ i. frame (i + 1); free_list_head = frame 3 }

abbrev full : Frames
full = record { free_frames_arr = λ i. frame (i + 1); free_list_head = 2 ^ 32 - 1 }

handle_cow_shared_example :
    handle_cow 8 (frame 1) (memory boot)
    ≡ ok (
      success,
      with_table
          (copied (memory boot) (record boot { free_list_head = frame 4 }) (frame 2) (frame 3))
          8192
          (update (words 8192) 1 (frame 3 + (present + user_mode + read_write))),
    )
unfolding allocate_frame
handle_cow_shared_example =
    handle_cow_shared 8 (frame 1) (memory boot) (frame 3) (record boot { free_list_head = frame 4 })
      (ground arith) (ground arith) (ground arith) refl (ground arith) (ground arith)

make_pt_cow-is_memory_writable_example :
    (t : Vm) × (make_pt_cow 8192 (memory boot) ≡ ok (tt, t))
    × (is_memory_writable (frame 1) 4 t ≡ false)
    × (is_addr_cow (frame 1) t ≡ ok (true, t))
    × (entry_addr (entry_at t (frame 1)) ≡ frame 2)
make_pt_cow-is_memory_writable_example =
    make_pt_cow-is_memory_writable (frame 1) 4 (memory boot) (ground arith) (ground arith)
      (omega arith)

is_memory_range_mapped_lem_example :
    is_memory_range_mapped 9 (frame 3) 4096 (memory boot) ≡ some unmapped
unfolding is_page_mapped
is_memory_range_mapped_lem_example =
    is_memory_range_mapped_lem 9 (frame 3) 4096 (memory boot) (omega arith) (omega arith)
      (omega arith) (omega arith) (ground arith)

new_pages_handler-ends_example :
    has_ended (new_pages_handler 8 5 (frame 4) 8192 (memory boot)) ≡ true
new_pages_handler-ends_example =
    new_pages_handler-ends 8 5 (frame 4) 8192 (memory boot) (omega arith) (omega arith)
