-- ===== src/Vm/Protect.antt =====
-- What marking a page table copy-on-write means for the addresses that it maps.
use p.Base.{
  ℕ, ◌≡◌, ◌≢◌, ◌≤◌, refl, ap, ◌∙◌, Bool, true, false, ◌&&◌, not, ◌==◌, update, arith, ≢→ne,
}
use p.Frames.{ok, user_mem_start}
use p.Vm.Entry.{entry_default, entry_addr, has_bit, read_write, present, pd_index, pt_index}
use p.Vm.Defs.{Vm}
use p.Vm.Tables.{make_pt_cow, table_entries}
use p.Vm.Mapping.{is_addr_cow}
use p.Vm.Access.{is_memory_writable}
use p.Vm.Cow.{marked, changed, with_table, make_pt_cow_lem, marked-entry_addr, update_at}
use p.Vm.Fault.{table_at, entry_at, is_addr_cow_lem}

update_other : {A : Type 0} (f : ℕ → A) (p : ℕ) (v : A) (q : ℕ) → q ≢ p → update f p v q ≡ f q
update_other f p v q ne = rw (≢→ne q p ne) refl

-- The memory after the table of an address is marked.
abbrev pub after_cow : Vm → ℕ → Vm
after_cow s ptr =
    with_table s (table_at s ptr) (changed marked table_entries 0 (s.word (table_at s ptr)))

changed_in :
    (w : ℕ → ℕ) (a : ℕ) → changed marked table_entries 0 w (pt_index a) ≡ marked (w (pt_index a))
changed_in w a = ground arith

table_at-after_cow :
    (s : Vm) (ptr : ℕ) → s.cr3 ≢ table_at s ptr → (after_cow s ptr).word s.cr3 ≡ s.word s.cr3
table_at-after_cow s ptr sep =
    update_other s.word (table_at s ptr) (changed marked table_entries 0 (s.word (table_at s ptr)))
      s.cr3 sep

entry_at-after_cow :
    (s : Vm) (ptr : ℕ)
    → s.cr3 ≢ table_at s ptr
    → entry_at (after_cow s ptr) ptr ≡ marked (entry_at s ptr)
entry_at-after_cow s ptr sep =
    (λ k.
      (after_cow s ptr).word (entry_addr (table_at-after_cow s ptr sep k (pd_index ptr)))
        (pt_index ptr))
    ∙ (λ k.
        update_at s.word (table_at s ptr) (changed marked table_entries 0 (s.word (table_at s ptr)))
          k (pt_index ptr))
    ∙ changed_in (s.word (table_at s ptr)) ptr

marked_refused :
    (v : ℕ) → (not (marked v == entry_default) && has_bit read_write (marked v)) ≡ false
marked_refused v = ground arith

marked_fault :
    (v : ℕ)
    → (not (has_bit read_write (marked v)) && has_bit present (marked v)) ≡ has_bit present v
marked_fault v = ground arith

and-false : (b c : Bool) → c ≡ false → (b && c) ≡ false
and-false true c h = h
and-false false c h = refl

-- For a user address whose page table under the current directory is not NULL and not the
-- directory itself, make_pt_cow of that table returns; after it the address is not writable,
-- is_addr_cow accepts it exactly when its entry was present, and the entry has the frame it had.
pub make_pt_cow-is_memory_writable :
    (ptr bytes : ℕ) (s : Vm)
    → table_at s ptr ≢ 0
    → s.cr3 ≢ table_at s ptr
    → user_mem_start ≤ ptr
    → (t : Vm) × (make_pt_cow (table_at s ptr) s ≡ ok (tt, t))
      × (is_memory_writable ptr bytes t ≡ false)
      × (is_addr_cow ptr t ≡ ok (has_bit present (entry_at s ptr), t))
      × (entry_addr (entry_at t ptr) ≡ entry_addr (entry_at s ptr))
unfolding is_memory_writable
make_pt_cow-is_memory_writable ptr bytes s ne sep le =
    let e = entry_at-after_cow s ptr sep in
    let t = after_cow s ptr in
    (
      t,
      make_pt_cow_lem (table_at s ptr) s ne,
      and-false (not (t.word t.cr3 (pd_index ptr) == entry_default))
          (not (entry_at t ptr == entry_default) && has_bit read_write (entry_at t ptr))
          ((λ k. not (e k == entry_default) && has_bit read_write (e k))
            ∙ marked_refused (entry_at s ptr)),
      is_addr_cow_lem ptr t le
          ∙ (λ k. ok (not (has_bit read_write (e k)) && has_bit present (e k), t))
          ∙ (λ k. ok (marked_fault (entry_at s ptr) k, t)),
      ap entry_addr e ∙ marked-entry_addr (entry_at s ptr),
    )
