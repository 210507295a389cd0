-- ===== src/Vm/Mapping.antt =====
-- Mapping segments and new pages, and the copy-on-write fault.
use p.Base.{
  ◌*◌, ℕ, zero, suc, ◌+◌, ◌-◌, ◌%◌, ◌^◌, Bool, true, false, ◌&&◌, ◌||◌, not, ◌==◌, ltb,
  if◌then◌else◌, Option, none, some, update,
}
use p.Frames.{Outcome, user_mem_start}
use p.Vm.Entry.{
  entry_default, entry_addr, entry_flags, has_bit, set_bit, clear_bit, read_write, cow_mode,
  present, user_mode, newpage_page, newpage_start, newpage_end, newpage_flags, set_newpage_start,
  set_newpage_end, pd_index, pt_index, page_round_down,
}
use p.Vm.Defs.{
  M, pure, ◌>>=◌, ◌>>◌, get_word, set_word, get_cr3, set_cur_pd, lock_frame, new_frame, give_back,
  get_ref, increment, decrement,
}
use p.Vm.Tables.{create_page_table}

-- The error codes of kern/inc/common/errors.h that these functions return.
pub data Error : Type 0 where
  failure inval nomem : Error

pub data Status : Type 0 where
  success : Status
  error : Error → Status

-- The page table entry of an address under the current page directory: the table, and the entry.
-- The source computes it in each function; it does not look whether the directory entry is there.
unfoldable pub walk : (addr : ℕ) → M (ℕ × ℕ)
unfolding get_word get_cr3
walk addr = do
  pd ← get_cr3
  e ← get_word pd (pd_index addr)
  v ← get_word (entry_addr e) (pt_index addr)
  pure (entry_addr e, v)

-- The test is `|` in the source where the flag's test would be `&`: a set bit makes it always true.
abbrev pub cow_test : ℕ → Bool
cow_test v = not (set_bit cow_mode v == 0) && (not (has_bit read_write v) && has_bit present v)

unfoldable pub is_addr_cow : (addr : ℕ) → M Bool
unfolding walk
is_addr_cow addr =
    if ltb addr user_mem_start then pure false else do (pt, v) ← walk addr; pure (cow_test v)

-- `memcpy` of a page out of the old frame and, after the switch, into the new one.
unfoldable pub copy_frame : (from to : ℕ) → M (Unit {0})
copy_frame from to s = Outcome.ok (tt, record s { page = update s.page to (s.page from) })

-- `zero_fill(start_addr, PAGE_SIZE)` through the new mapping of a page-aligned address
unfoldable pub zero_fill : (frame : ℕ) → M (Unit {0})
zero_fill frame s = Outcome.ok (tt, record s { page = update s.page frame (λ _. 0) })

module _ (count : ℕ) where
  -- The branch of `handle_cow` for a frame that several tables share; false when memory is out.
  unfoldable pub split_frame : (pt i v : ℕ) → M Bool
  unfolding new_frame set_word get_cr3 set_cur_pd copy_frame decrement increment lock_frame
  split_frame pt i v = do
    a ← new_frame count
    elim a [
      | none ↦ do lock_frame count (entry_addr v); pure false
      | some frame ↦ do
        set_word pt i (clear_bit cow_mode (frame + entry_flags v))
        copy_frame (entry_addr v) frame
        decrement (entry_addr v)
        lock_frame count frame
        increment frame
        lock_frame count frame
        pure true
    ]

  -- The last statements, reached on both branches.
  unfoldable pub make_writable : (pt i v : ℕ) → M Status
  unfolding get_word set_word lock_frame
  make_writable pt i v = do
    lock_frame count (entry_addr v)
    w ← get_word pt i
    set_word pt i (set_bit read_write w)
    pure Status.success

  unfoldable pub handle_cow : (addr : ℕ) → M Status
  unfolding walk lock_frame get_ref set_word split_frame make_writable
  handle_cow addr = do
    (pt, v) ← walk addr
    lock_frame count (entry_addr v)
    n ← get_ref (entry_addr v)
    if n == 1
        then (do
          set_word pt (pt_index addr) (clear_bit cow_mode v)
          make_writable pt (pt_index addr) v)
        else do
          done ← split_frame pt (pt_index addr) v
          if done then make_writable pt (pt_index addr) v else pure (Status.error Error.failure)

  -- The page table for an address, made if the directory has none; NULL if that fails.
  unfoldable pub table_for : (pd i : ℕ) → M (Option ℕ)
  unfolding get_word set_word create_page_table
  table_for pd i = do
    e ← get_word pd i
    if e == entry_default
        then (do
          a ← create_page_table
          elim a [
            | none ↦ pure none
            | some pt ↦ do set_word pd i (pt + (present + read_write + user_mode)); pure (some pt)
          ])
        else pure (some (entry_addr e))

  -- A frame for one entry that has none; false if there is no frame.
  unfoldable pub frame_for : (pt i flags : ℕ) → M Bool
  unfolding get_word set_word new_frame lock_frame increment zero_fill
  frame_for pt i flags = do
    e ← get_word pt i
    if e == entry_default
        then (do
          a ← new_frame count
          elim a [
            | none ↦ pure false
            | some frame ↦ do
              lock_frame count frame
              increment frame
              lock_frame count frame
              set_word pt i (frame + flags)
              zero_fill frame
              pure true
          ])
        else pure true

  -- One round of the loop of `map_segment`.
  unfoldable pub map_page : (pd addr flags : ℕ) → M Bool
  unfolding table_for frame_for
  map_page pd addr flags = do
    t ← table_for pd (pd_index addr)
    elim t [ none ↦ pure false | some pt ↦ frame_for pt (pt_index addr) flags ]

  -- `while (start_addr < end_addr)` on fuel, `none` when it runs out. The address wraps at 2^32.
  unfoldable pub map_pages : (pd flags end fuel addr : ℕ) → M (Option Status)
  unfolding map_page
  map_pages pd flags end zero addr = pure none
  map_pages pd flags end (suc fuel) addr =
      let rest = map_pages pd flags end fuel ((addr + 4096) % 2 ^ 32) in
      if ltb addr end
      then (do
        mapped ← map_page pd addr flags
        if mapped then rest else pure (some (Status.error Error.nomem)))
      else pure (some Status.success)

  unfoldable pub map_segment : (fuel start length pd flags : ℕ) → M (Option Status)
  unfolding map_pages set_cur_pd
  map_segment fuel start length pd flags = do
    set_cur_pd pd
    map_pages pd flags ((start + length) % 2 ^ 32) fuel (page_round_down start)

  -- One segment after the other, as long as each succeeds.
  unfoldable pub then_map : M (Option Status) → M (Option Status) → M (Option Status)
  then_map m next = do
    r ← m
    elim r [
      | none ↦ pure none
      | some st ↦ elim st [ Status.success ↦ next | Status.error e ↦ pure (some (Status.error e)) ]
    ]

-- The segments that a `simple_elf_t` names.
pub record Elf : Type 0 where
  pub e_txtstart : ℕ
  pub e_txtlen : ℕ
  pub e_datstart : ℕ
  pub e_datlen : ℕ
  pub e_rodatstart : ℕ
  pub e_rodatlen : ℕ
  pub e_bssstart : ℕ
  pub e_bsslen : ℕ

-- STACK_START and DEFAULT_STACK_SIZE
abbrev pub stack_start : ℕ
stack_start = 0xc0000000

abbrev pub default_stack_size : ℕ
default_stack_size = 2 * 1024 * 1024

module _ (count : ℕ) where
  -- `map_text_segment` to `map_stack_segment`. DEFAULT_STACK_SIZE is a product without brackets, and
  -- is subtracted as a whole all the same. A NULL header is left out, a NULL directory is not.
  unfoldable pub setup_page_table : (fuel : ℕ) → Elf → (pd : ℕ) → M (Option Status)
  unfolding map_segment then_map
  setup_page_table fuel elf pd =
      if pd == 0
      then pure (some (Status.error Error.failure))
      else then_map count
          (map_segment count fuel elf.e_txtstart elf.e_txtlen pd (present + user_mode))
          (then_map count
            (map_segment count fuel elf.e_datstart elf.e_datlen pd
              (present + read_write + user_mode))
            (then_map count
              (map_segment count fuel elf.e_rodatstart elf.e_rodatlen pd (present + user_mode))
              (then_map count
                (map_segment count fuel elf.e_bssstart elf.e_bsslen pd
                  (present + read_write + user_mode))
                (map_segment count fuel (stack_start - default_stack_size + 1) default_stack_size pd
                  (present + read_write + user_mode)))))

  -- A new value for the entry of an address.
  unfoldable pub mark : (addr : ℕ) → (ℕ → ℕ) → M (Unit {0})
  unfolding walk set_word
  mark addr f = do (pt, v) ← walk addr; set_word pt (pt_index addr) (f v)

  -- The last page is marked first, so that a region of one page ends up as a start.
  unfoldable pub map_new_pages : (fuel base length : ℕ) → M (Option Status)
  unfolding map_segment mark get_cr3 set_cur_pd
  map_new_pages fuel base length = do
    pd ← get_cr3
    r ← map_segment count fuel base length pd (present + read_write + user_mode + newpage_page)
    elim r [
      | none ↦ pure none
      | some st ↦ elim st [
        | Status.error e ↦ pure (some (Status.error e))
        | Status.success ↦ do
          mark (page_round_down ((base + length + 2 ^ 32 - 1) % 2 ^ 32)) set_newpage_end
          mark base set_newpage_start
          set_cur_pd pd
          pure (some Status.success)
      ]
    ]

  -- The frame of one entry loses a user, and the entry is cleared.
  unfoldable pub unmap_entry : (pt i v : ℕ) → M (Unit {0})
  unfolding lock_frame decrement get_ref give_back set_word
  unmap_entry pt i v = do
    lock_frame count (entry_addr v)
    decrement (entry_addr v)
    n ← get_ref (entry_addr v)
    if n == 0 then give_back count (entry_addr v) else pure tt
    lock_frame count (entry_addr v)
    set_word pt i entry_default

  -- `while` over the following pages of the region, on fuel.
  unfoldable pub unmap_pages : (fuel base : ℕ) → M (Option Status)
  unfolding walk unmap_entry
  unmap_pages zero base = pure none
  unmap_pages (suc fuel) base = do
    (pt, v) ← walk base
    let rest = unmap_pages fuel ((base + 4096) % 2 ^ 32)
    if (newpage_flags v == newpage_page) || (newpage_flags v == newpage_end)
        then (do unmap_entry pt (pt_index base) v; rest)
        else pure (some Status.success)

  unfoldable pub unmap_new_pages : (fuel base : ℕ) → M (Option Status)
  unfolding walk unmap_entry unmap_pages get_cr3 set_cur_pd
  unmap_new_pages fuel base = do
    pd ← get_cr3
    (pt, v) ← walk base
    if newpage_flags v == newpage_start
        then (do
          unmap_entry pt (pt_index base) v
          r ← unmap_pages fuel ((base + 4096) % 2 ^ 32)
          set_cur_pd pd
          pure r)
        else pure (some (Status.error Error.inval))
