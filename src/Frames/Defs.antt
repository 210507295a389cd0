-- ===== src/Frames/Defs.antt =====
-- The frame allocator. `count` is FREE_FRAMES_COUNT, which the machine decides at boot. The two
-- mutexes serialise the calls, so a call is one step from state to state.
use p.Base.{
  ℕ, zero, suc, ◌+◌, ◌-◌, ◌*◌, ◌/◌, ◌%◌, ◌^◌, Bool, ◌&&◌, ◌==◌, ltb, if◌then◌else◌, Option, none,
  some, update, not,
}

-- A failed `kernel_assert` stops the kernel.
pub data Outcome {ℓ} (A : Type ℓ) : Type ℓ where
  ok : A → Outcome A
  panic : Outcome A

abbrev pub page_size : ℕ
page_size = 4096

abbrev pub user_mem_start : ℕ
user_mem_start = 0x1000000

-- FREE_FRAME_LIST_END, that is UINT_MAX
abbrev pub list_end : ℕ
list_end = 2 ^ 32 - 1

-- FRAME_INDEX, an unsigned difference divided by the page size
abbrev pub frame_index : ℕ → ℕ
frame_index addr = (addr + 2 ^ 32 - user_mem_start) % 2 ^ 32 / page_size

-- `free_frames_arr` and `free_list_head`
pub record Frames : Type 0 where
  pub free_frames_arr : ℕ → ℕ
  pub free_list_head : ℕ

-- `for (i = 0; i < FREE_FRAMES_COUNT - 1; i++)`, with the rounds left and `i`
unfoldable pub init_loop : ℕ → ℕ → (ℕ → ℕ) → ℕ → ℕ
init_loop zero i arr = arr
init_loop (suc n) i arr = init_loop n (i + 1) (update arr i (user_mem_start + (i + 1) * page_size))

-- `arr` is what `smalloc` hands over, of any contents.
unfoldable pub init_free_list : (count : ℕ) → (ℕ → ℕ) → Frames
unfolding init_loop
init_free_list count arr = record {
  free_frames_arr = update (init_loop (count - 1) 0 arr) (count - 1) list_end;
  free_list_head = user_mem_start;
}

-- The alignment test is `addr & 0xfff`. An unsigned index is never negative.
abbrev pub is_frame : (count addr : ℕ) → Bool
is_frame count addr = (addr % 4096 == 0) && ltb (frame_index addr) count

-- NULL is `none`. The assertions run on the frame after the list is updated.
unfoldable pub allocate_frame : (count : ℕ) → Frames → Outcome (Option ℕ × Frames)
allocate_frame count s =
    if s.free_list_head == list_end
    then ok (none, s)
    else let s' = record s { free_list_head = s.free_frames_arr (frame_index s.free_list_head) } in
      if is_frame count s.free_list_head then ok (some s.free_list_head, s') else panic

unfoldable pub deallocate_frame : (count addr : ℕ) → Frames → Outcome Frames
deallocate_frame count addr s =
    if is_frame count addr && not (addr == 0)
    then ok (record {
      free_frames_arr = update s.free_frames_arr (frame_index addr) s.free_list_head;
      free_list_head = addr;
    })
    else panic

-- The loop of `check_physical_memory` on fuel, `none` when it runs out.
unfoldable pub count_free : ℕ → (ℕ → ℕ) → (first free_count : ℕ) → Option (Outcome ℕ)
count_free zero arr first free_count = none
count_free (suc fuel) arr first free_count =
    let rest = count_free fuel arr (arr (frame_index first)) (free_count + 1) in
    if first == list_end
    then some (ok free_count)
    else if ltb first user_mem_start
    then some panic
    else rest

unfoldable pub check_physical_memory : (fuel : ℕ) → Frames → Option (Outcome ℕ)
unfolding count_free
check_physical_memory fuel s = count_free fuel s.free_frames_arr s.free_list_head 0
