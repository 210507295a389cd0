-- ===== src/Exec/Tests.antt =====
-- Tests of the copies from user memory, with one page that holds the string of the bytes 104 and 105.
use p.Base.{◌+◌, ◌≡◌, ◌↔◌, ◌<◌, refl, ◌==◌, if◌then◌else◌, some, [], ◌∷◌, arith}
use p.Frames.{user_mem_start}
use p.Vm.{Vm, is_pointer_valid, is_memory_range_mapped, scan_pages, is_page_mapped}
use p.Vm.Entry.{entry_default, present, user_mode}
use p.Exec.Defs.{copied, copy_user_data, Heap}
use p.Exec.Strings.{IsString, copy_user_data-IsString}

abbrev memory : Vm
memory = record {
  frames = record { free_frames_arr = λ i. 0; free_list_head = 0 };
  frame_ref_count = λ i. 1;
  word = λ page i.
      if page == 4096
      then if i == 4 then 8192 + 7 else entry_default
      else if i == 0
      then user_mem_start + 4096 + (present + user_mode)
      else entry_default;
  page = λ frame i. if i == 0 then 104 else if i == 1 then 105 else 0;
  cr3 = 4096;
  heap = [];
}

abbrev heap : Heap
heap = record { answers = []; word = λ a. 99; string = λ a. []; freed = [] }

copy_user_data-IsString_example :
    (copy_user_data 2 memory user_mem_start 255 ≡ some (copied (104 ∷ 105 ∷ 0 ∷ [])))
    ↔ (IsString 2 memory user_mem_start (104 ∷ 105 ∷ []) × (2 < 255))
copy_user_data-IsString_example =
    copy_user_data-IsString 2 memory user_mem_start 255 (104 ∷ 105 ∷ []) (omega arith) (omega arith)
      (omega arith)

memory-IsString : IsString 2 memory user_mem_start (104 ∷ 105 ∷ [])
unfolding is_pointer_valid is_memory_range_mapped scan_pages is_page_mapped
memory-IsString = (refl, refl, omega arith, (refl, refl, omega arith, (refl, refl)))
