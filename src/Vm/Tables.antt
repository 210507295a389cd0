-- ===== src/Vm/Tables.antt =====
-- Page directories and page tables: making, copying, freeing, marking copy-on-write.
use p.Base.{
  ℕ, zero, suc, ◌+◌, ◌-◌, ◌^◌, Bool, true, false, ◌==◌, ltb, if◌then◌else◌, Option, none, some,
  update,
}
use p.Vm.Entry.{
  entry_default, entry_addr, entry_flags, has_bit, set_bit, clear_bit, read_write, cow_mode,
  present,
}
use p.Frames.{Outcome}
use p.Vm.Defs.{
  M, pure, ◌>>=◌, ◌>>◌, kernel_assert, get_word, set_word, smemalign, lock_frame, give_back,
  get_ref, increment, decrement,
}

-- KERNEL_MAP_NUM_ENTRIES and NUM_PAGE_TABLE_ENTRIES
abbrev pub kernel_entries : ℕ
kernel_entries = 4

abbrev pub table_entries : ℕ
table_entries = 1024

-- `for (i = i0; i < i0 + n; i++) body(i)`
unfoldable pub for_entries : (n i : ℕ) → (ℕ → M (Unit {0})) → M (Unit {0})
for_entries zero i body = pure tt
for_entries (suc n) i body = body i >> for_entries n (i + 1) body

unfoldable pub fill_default : (page n i : ℕ) → M (Unit {0})
unfolding for_entries set_word
fill_default page n i = for_entries n i (λ j. set_word page j entry_default)

-- A copy of the four entries of the kernel's direct map.
unfoldable pub direct_map_kernel_pages : (direct_map : ℕ → ℕ) (pd : ℕ) → M (Unit {0})
unfolding for_entries set_word
direct_map_kernel_pages direct_map pd =
    for_entries kernel_entries 0 (λ i. set_word pd i (direct_map i + (present + read_write)))

unfoldable pub create_page_directory : (direct_map : ℕ → ℕ) → M (Option ℕ)
unfolding smemalign direct_map_kernel_pages fill_default
create_page_directory direct_map = do
  a ← smemalign
  elim a [
    | none ↦ pure none
    | some pd ↦ do
      direct_map_kernel_pages direct_map pd
      fill_default pd (table_entries - kernel_entries) kernel_entries
      pure (some pd)
  ]

unfoldable pub create_page_table : M (Option ℕ)
unfolding smemalign fill_default
create_page_table = do
  a ← smemalign
  elim a [ none ↦ pure none | some pt ↦ do fill_default pt table_entries 0; pure (some pt) ]

module _ (count : ℕ) where
  unfoldable pub count_entry : (pt i : ℕ) → M (Unit {0})
  unfolding get_word lock_frame increment
  count_entry pt i = do
    e ← get_word pt i
    if e == entry_default then pure tt else do
      lock_frame count (entry_addr e)
      increment (entry_addr e)
      lock_frame count (entry_addr e)

  unfoldable pub increment_ref_count : (pt : ℕ) → M (Unit {0})
  unfolding count_entry for_entries
  increment_ref_count pt = if pt == 0 then pure tt else for_entries table_entries 0 (count_entry pt)

  -- One entry of `free_page_table`.
  unfoldable pub free_entry : (pt i : ℕ) → M (Unit {0})
  unfolding get_word lock_frame decrement get_ref give_back
  free_entry pt i = do
    e ← get_word pt i
    if e == entry_default then pure tt else do
      lock_frame count (entry_addr e)
      decrement (entry_addr e)
      n ← get_ref (entry_addr e)
      kernel_assert (ltb n (2 ^ 31))
      if n == 0 then give_back count (entry_addr e) else pure tt
      lock_frame count (entry_addr e)

  -- The table's own page goes back to the memory manager, which the model does not follow.
  unfoldable pub free_page_table : (pt : ℕ) → M (Unit {0})
  unfolding free_entry for_entries
  free_page_table pt = if pt == 0 then pure tt else for_entries table_entries 0 (free_entry pt)

  unfoldable pub free_table_at : (pd i : ℕ) → M (Unit {0})
  unfolding get_word free_page_table
  free_table_at pd i = do
    e ← get_word pd i
    if e == entry_default then pure tt else free_page_table (entry_addr e)

  unfoldable pub free_paging_info : (pd : ℕ) → M (Unit {0})
  unfolding free_table_at for_entries
  free_paging_info pd =
      if pd == 0
      then pure tt
      else for_entries (table_entries - kernel_entries) kernel_entries (free_table_at pd)

-- `memcpy(new_pt, pt, PAGE_SIZE)`
unfoldable pub copy_table : (new_pt pt : ℕ) → M (Unit {0})
copy_table new_pt pt s = Outcome.ok (tt, record s { word = update s.word new_pt (s.word pt) })

unfoldable pub cow_entry : (pt i : ℕ) → M (Unit {0})
unfolding get_word set_word
cow_entry pt i = do
  e ← get_word pt i
  if e == entry_default
      then pure tt
      else if has_bit read_write (entry_flags e)
      then set_word pt i (clear_bit read_write (set_bit cow_mode e))
      else pure tt

unfoldable pub make_pt_cow : (pt : ℕ) → M (Unit {0})
unfolding cow_entry for_entries
make_pt_cow pt = if pt == 0 then pure tt else for_entries table_entries 0 (cow_entry pt)

unfoldable pub cow_table_at : (pd i : ℕ) → M (Unit {0})
unfolding get_word make_pt_cow
cow_table_at pd i = do
  e ← get_word pd i
  if e == entry_default then pure tt else make_pt_cow (entry_addr e)

unfoldable pub make_pages_cow : (pd : ℕ) → M (Unit {0})
unfolding cow_table_at for_entries
make_pages_cow pd =
    if pd == 0
    then pure tt
    else for_entries (table_entries - kernel_entries) kernel_entries (cow_table_at pd)

module _ (count : ℕ) where
  unfoldable pub clone_page_table : (pt : ℕ) → M (Option ℕ)
  unfolding create_page_table copy_table increment_ref_count
  clone_page_table pt = if pt == 0 then pure none else do
    a ← create_page_table
    elim a [
      | none ↦ pure none
      | some new_pt ↦ do copy_table new_pt pt; increment_ref_count count new_pt; pure (some new_pt)
    ]

  -- The loop of `clone_paging_info`; its value is false when a table could not be cloned.
  unfoldable pub clone_tables : (pd new_pd n i : ℕ) → M Bool
  unfolding get_word set_word clone_page_table
  clone_tables pd new_pd zero i = pure true
  clone_tables pd new_pd (suc n) i = do
    e ← get_word pd i
    if e == entry_default then clone_tables pd new_pd n (i + 1) else do
      a ← clone_page_table (entry_addr e)
      elim a [
        | none ↦ pure false
        | some new_pt ↦ do
          set_word new_pd i (new_pt + entry_flags e)
          clone_tables pd new_pd n (i + 1)
      ]

  unfoldable pub clone_paging_info : (direct_map : ℕ → ℕ) (pd : ℕ) → M (Option ℕ)
  unfolding create_page_directory clone_tables free_paging_info make_pages_cow
  clone_paging_info direct_map pd = if pd == 0 then pure none else do
    a ← create_page_directory direct_map
    elim a [
      | none ↦ pure none
      | some new_pd ↦ do
        cloned ← clone_tables pd new_pd (table_entries - kernel_entries) kernel_entries
        if cloned
            then (do make_pages_cow pd; make_pages_cow new_pd; pure (some new_pd))
            else do free_paging_info count new_pd; pure none
    ]
