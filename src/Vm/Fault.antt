-- ===== src/Vm/Fault.antt =====
-- The copy-on-write fault: what `is_addr_cow` answers and the memory that `handle_cow` leaves.
use p.Base.{
  ℕ, ◌+◌, ◌≡◌, ◌≢◌, ◌≤◌, ◌<◌, ◌%◌, ◌-◌, ◌^◌, refl, ap, ◌∙◌, true, false, ◌&&◌, not, ◌==◌, ltb,
  if◌then◌else◌, Option, none, some, update, arith, ≢→ne, ≡→eq,
}
use p.Frames.{Frames, ok, user_mem_start, frame_index, allocate_frame}
use p.Vm.Entry.{
  entry_addr, entry_flags, has_bit, set_bit, clear_bit, read_write, cow_mode, present, pd_index,
  pt_index,
}
use p.Vm.Defs.{
  Vm, pure, and_then, ◌>>=◌, ◌>>◌, get_word, set_word, get_cr3, set_cur_pd, lock_frame, new_frame,
  get_ref, set_ref, increment, decrement,
}
use p.Vm.Mapping.{
  success, error, failure, walk, is_addr_cow, split_frame, make_writable, handle_cow, copy_frame,
}
use p.Vm.Cow.{with_table, update_at, update_twice, with_table_twice}

-- The page table of an address and its entry there, under the current page directory.
abbrev pub table_at : Vm → ℕ → ℕ
table_at s addr = entry_addr (s.word s.cr3 (pd_index addr))

abbrev pub entry_at : Vm → ℕ → ℕ
entry_at s addr = s.word (table_at s addr) (pt_index addr)

not_below : (addr : ℕ) → user_mem_start ≤ addr → ltb addr user_mem_start ≡ false
not_below addr le = ground arith

-- One user fewer at `i`, then one more at `j`.
abbrev pub fewer : (ℕ → ℕ) → ℕ → ℕ → ℕ
fewer r i = update r i ((r i + 2 ^ 32 - 1) % 2 ^ 32)

abbrev pub moved : (ℕ → ℕ) → (i j : ℕ) → ℕ → ℕ
moved r i j = update (fewer r i) j ((fewer r i j + 1) % 2 ^ 32)

-- The memory after the page of `from` is copied to the frame `to`, which takes over one user.
abbrev pub copied : Vm → Frames → (from to : ℕ) → Vm
copied s f from to = record s {
  frames = f;
  frame_ref_count = moved s.frame_ref_count (frame_index from) (frame_index to);
  page = update s.page to (s.page from);
}

lt→ltb : (a b : ℕ) → a < b → ltb a b ≡ true
lt→ltb a b h = ground arith

set_bit_nonzero : (v : ℕ) → (set_bit cow_mode v == 0) ≡ false
set_bit_nonzero v = ground arith

-- For a user address is_addr_cow answers whether the entry is present and read-only; the
-- copy-on-write flag of the entry has no part in the answer.
pub is_addr_cow_lem :
    (addr : ℕ) (s : Vm)
    → user_mem_start ≤ addr
    → is_addr_cow addr s
      ≡ ok (not (has_bit read_write (entry_at s addr)) && has_bit present (entry_at s addr), s)
unfolding is_addr_cow walk get_word get_cr3
is_addr_cow_lem addr s le = rw (not_below addr le) (rw (set_bit_nonzero (entry_at s addr)) refl)

-- A write of the entry that was written before, from its new value.
set_again :
    (s : Vm) (pt i w : ℕ)
    → (let t = with_table s pt (update (s.word pt) i w) in
        with_table t pt (update (t.word pt) i (set_bit read_write (t.word pt i))))
      ≡ with_table s pt (update (s.word pt) i (set_bit read_write w))
set_again s pt i w =
    let u = update (s.word pt) i w in
    with_table_twice s pt u
      (update (update s.word pt u pt) i (set_bit read_write (update s.word pt u pt i)))
    ∙ (λ k.
        with_table s pt
          (update (update_at s.word pt u k) i (set_bit read_write (update_at s.word pt u k i))))
    ∙ (λ k. with_table s pt (update u i (set_bit read_write (update_at (s.word pt) i w k))))
    ∙ (λ k. with_table s pt (λ q. update_twice (s.word pt) i w (set_bit read_write w) q k))

module _ (count : ℕ) where
  lock_frame_lem :
      (addr : ℕ) (s : Vm)
      → addr ≢ 0
      → frame_index addr < count
      → lock_frame count addr s ≡ ok (tt, s)
  unfolding lock_frame
  lock_frame_lem addr s ne lt = rw (≢→ne addr 0 ne) (rw (lt→ltb (frame_index addr) count lt) refl)

  make_writable_lem :
      (pt i v w : ℕ) (s : Vm)
      → entry_addr v ≢ 0
      → frame_index (entry_addr v) < count
      → make_writable count pt i v (with_table s pt (update (s.word pt) i w))
        ≡ ok (success, with_table s pt (update (s.word pt) i (set_bit read_write w)))
  unfolding make_writable get_word set_word
  make_writable_lem pt i v w s ne lt =
      ap
        (λ o.
          and_then o
            (λ _. do x ← get_word pt i; set_word pt i (set_bit read_write x); pure success))
        (lock_frame_lem (entry_addr v) (with_table s pt (update (s.word pt) i w)) ne lt)
      ∙ ap (λ y. ok (success, y)) (set_again s pt i w)

  new_frame_lem :
      (s : Vm) (r : Option ℕ) (f : Frames)
      → allocate_frame count s.frames ≡ ok (r, f)
      → new_frame count s ≡ ok (r, record s { frames = f })
  unfolding new_frame
  new_frame_lem s r f got = rw (got, new_frame) refl

  split_frame_lem :
      (pt i v frame : ℕ) (f : Frames) (s : Vm)
      → allocate_frame count s.frames ≡ ok (some frame, f)
      → frame ≢ 0
      → frame_index frame < count
      → split_frame count pt i v s
        ≡ ok (
          true,
          with_table
              (copied s f (entry_addr v) frame)
              pt
              (update (s.word pt) i (clear_bit cow_mode (frame + entry_flags v))),
        )
  unfolding split_frame set_word get_cr3 set_cur_pd copy_frame decrement increment get_ref set_ref
  split_frame_lem pt i v frame f s got ne lt =
      let t =
        with_table
          (record s {
            frames = f;
            page = update s.page frame (s.page (entry_addr v));
            frame_ref_count = fewer s.frame_ref_count (frame_index (entry_addr v));
          })
          pt (update (s.word pt) i (clear_bit cow_mode (frame + entry_flags v))) in
      rw (new_frame_lem s (some frame) f got) (
        ap (λ o. and_then o (λ _. do increment frame; lock_frame count frame; pure true))
          (lock_frame_lem frame t ne lt)
        ∙ ap (λ o. and_then o (λ _. pure true))
            (lock_frame_lem frame
              (record t {
                frame_ref_count =
                    moved s.frame_ref_count (frame_index (entry_addr v)) (frame_index frame);
              })
              ne lt))

module _ (count addr : ℕ) (s : Vm) where
  -- When the entry of the address has a frame of the allocator with a reference count of one,
  -- handle_cow sets the write flag of the entry, clears its copy-on-write flag, and changes
  -- nothing else.
  pub handle_cow_private :
      entry_addr (entry_at s addr) ≢ 0
      → frame_index (entry_addr (entry_at s addr)) < count
      → s.frame_ref_count (frame_index (entry_addr (entry_at s addr))) ≡ 1
      → handle_cow count addr s
        ≡ ok (
          success,
          with_table s (table_at s addr) (
              update
                (s.word (table_at s addr))
                (pt_index addr)
                (set_bit read_write (clear_bit cow_mode (entry_at s addr)))),
        )
  unfolding handle_cow walk get_word get_cr3 get_ref set_word
  handle_cow_private ne lt one = rw (lock_frame_lem count (entry_addr (entry_at s addr)) s ne lt) (
      rw (≡→eq (s.frame_ref_count (frame_index (entry_addr (entry_at s addr)))) 1 one) (
        make_writable_lem count (table_at s addr) (pt_index addr) (entry_at s addr)
          (clear_bit cow_mode (entry_at s addr)) s ne lt))

  -- When the entry of the address has a frame of the allocator with a reference count other than
  -- one, and the allocator grants a frame, handle_cow copies the page into the granted frame,
  -- gives the entry that frame with the write flag and without the copy-on-write flag, moves one
  -- user from the old frame to the granted one, and changes nothing else but the free list.
  pub handle_cow_shared :
      (frame : ℕ) (f : Frames)
      → entry_addr (entry_at s addr) ≢ 0
      → frame_index (entry_addr (entry_at s addr)) < count
      → s.frame_ref_count (frame_index (entry_addr (entry_at s addr))) ≢ 1
      → allocate_frame count s.frames ≡ ok (some frame, f)
      → frame ≢ 0
      → frame_index frame < count
      → handle_cow count addr s
        ≡ ok (
          success,
          with_table (copied s f (entry_addr (entry_at s addr)) frame) (table_at s addr) (
              update
                (s.word (table_at s addr))
                (pt_index addr)
                (set_bit read_write (clear_bit cow_mode (frame + entry_flags (entry_at s addr))))),
        )
  unfolding handle_cow walk get_word get_cr3 get_ref
  handle_cow_shared frame f ne lt many got ne' lt' =
      let pt = table_at s addr in
      let v = entry_at s addr in
      rw (lock_frame_lem count (entry_addr v) s ne lt) (
        rw (≢→ne (s.frame_ref_count (frame_index (entry_addr v))) 1 many) (
          ap
            (λ o. and_then o (λ done.
              if done then make_writable count pt (pt_index addr) v else pure (error failure)))
            (split_frame_lem count pt (pt_index addr) v frame f s got ne' lt')
          ∙ make_writable_lem count pt (pt_index addr) v
              (clear_bit cow_mode (frame + entry_flags v)) (copied s f (entry_addr v) frame) ne lt))

  -- When the entry of the address has a frame of the allocator with a reference count other than
  -- one, and the allocator has none left, handle_cow returns its error and changes no page, entry
  -- or count.
  handle_cow-failure :
      (f : Frames)
      → entry_addr (entry_at s addr) ≢ 0
      → frame_index (entry_addr (entry_at s addr)) < count
      → s.frame_ref_count (frame_index (entry_addr (entry_at s addr))) ≢ 1
      → allocate_frame count s.frames ≡ ok (none, f)
      → handle_cow count addr s ≡ ok (error failure, record s { frames = f })
  unfolding handle_cow walk get_word get_cr3 get_ref split_frame
  handle_cow-failure f ne lt many got =
      let v = entry_at s addr in
      rw (lock_frame_lem count (entry_addr v) s ne lt) (
        rw (≢→ne (s.frame_ref_count (frame_index (entry_addr v))) 1 many) (
          rw (new_frame_lem count s none f got)
            (rw (lock_frame_lem count (entry_addr v) (record s { frames = f }) ne lt) refl)))
