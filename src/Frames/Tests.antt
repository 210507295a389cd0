-- ===== src/Frames/Tests.antt =====
-- Runs of the frame allocator with four frames, and the theorems about it at concrete states.
use p.Base.{◌+◌, ◌≡◌, refl, ◌∷◌, [], arith, some}
use p.Frames.Defs.{
  Frames, ok, init_free_list, allocate_frame, check_physical_memory, user_mem_start,
}
use p.Frames.Owners.{Owned, Reach, start, later, granted, Exclusive, allocate_frame-Exclusive}

abbrev boot : Frames
unfolding init_free_list
boot = init_free_list 4 (λ i. 77)

-- The frame at the start of user memory, handed out.
abbrev one_held : Owned
unfolding boot
one_held = record {
  frames = record boot { free_list_head = user_mem_start + 4096 };
  held = user_mem_start ∷ [];
}

one_held-Reach : Reach 4 (λ i. 77) one_held
unfolding one_held allocate_frame
one_held-Reach = later start (granted refl)

count_run : check_physical_memory 5 boot ≡ some (ok 4)
unfolding boot check_physical_memory
count_run = refl

allocate_frame-Exclusive_example : Exclusive 4 one_held
allocate_frame-Exclusive_example =
    allocate_frame-Exclusive (omega arith) (omega arith) one_held-Reach
