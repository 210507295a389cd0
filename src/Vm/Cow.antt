-- ===== src/Vm/Cow.antt =====
-- Copy-on-write: what marking a table does to its entries, and which pages are taken for marked.
use p.Base.{
  ℕ, zero, suc, ◌+◌, ◌≡◌, ◌≢◌, refl, sym, ap, ◌∙◌, true, false, ◌&&◌, ◌==◌, ltb, leb, if◌then◌else◌,
  update, arith, Bool-cases, eq→≡, eq_refl, ≢→ne, inl, inr,
}
use p.Frames.{ok}
use p.Vm.Entry.{
  entry_default, entry_addr, entry_flags, has_bit, set_bit, clear_bit, read_write, cow_mode,
  present,
}
use p.Vm.Defs.{Vm, and_then, get_word, set_word}
use p.Vm.Tables.{for_entries, cow_entry, make_pt_cow, table_entries}

-- What becomes of an entry when its table is marked copy-on-write.
abbrev pub marked : ℕ → ℕ
marked e =
    if e == entry_default
    then e
    else if has_bit read_write (entry_flags e)
    then clear_bit read_write (set_bit cow_mode e)
    else e

-- A table of which the entries from `i` to `i + n` have been changed by `f`.
abbrev pub changed : (ℕ → ℕ) → (n i : ℕ) → (ℕ → ℕ) → ℕ → ℕ
changed f n i w j = if leb i j && ltb j (i + n) then f (w j) else w j

-- The memory with another table at `page`.
abbrev pub with_table : Vm → ℕ → (ℕ → ℕ) → Vm
with_table s page w = record s { word = update s.word page w }

update_same : {A : Type 0} (f : ℕ → A) (p j : ℕ) → update f p (f p) j ≡ f j
update_same f p j = elim (Bool-cases (j == p)) [
  | inl e ↦ rw (e, eq→≡ j p e) refl
  | inr e ↦ rw e refl
]

pub update_twice :
    {A : Type 0} (f : ℕ → A) (p : ℕ) (v w : A) (q : ℕ)
    → update (update f p v) p w q ≡ update f p w q
update_twice f p v w q = elim (Bool-cases (q == p)) [ inl e ↦ rw e refl | inr e ↦ rw e refl ]

pub update_at : {A : Type 0} (f : ℕ → A) (p : ℕ) (v : A) → update f p v p ≡ v
update_at f p v = rw (eq_refl p) refl

with_table_same : (s : Vm) (pt : ℕ) → with_table s pt (s.word pt) ≡ s
with_table_same s pt = λ k. record s { word = λ q. update_same s.word pt q k }

with_table_self : (s : Vm) (pt i : ℕ) → with_table s pt (update (s.word pt) i (s.word pt i)) ≡ s
with_table_self s pt i =
    (λ k. with_table s pt (λ j. update_same (s.word pt) i j k)) ∙ with_table_same s pt

pub with_table_twice :
    (s : Vm) (pt : ℕ) (v w : ℕ → ℕ) → with_table (with_table s pt v) pt w ≡ with_table s pt w
with_table_twice s pt v w = λ k. record s { word = λ q. update_twice s.word pt v w q k }

changed-zero : (f w : ℕ → ℕ) (i j : ℕ) → changed f 0 i w j ≡ w j
changed-zero f w i j = ground arith

changed-suc :
    (f w : ℕ → ℕ) (n i j : ℕ)
    → changed f n (i + 1) (update w i (f (w i))) j ≡ changed f (suc n) i w j
changed-suc f w n i j = elim (Bool-cases (j == i)) [
  | inl e ↦ rw (eq→≡ j i e) (ground arith)
  | inr e ↦ ground arith
]

cow_entry_lem :
    (pt i : ℕ) (s : Vm)
    → cow_entry pt i s ≡ ok (tt, with_table s pt (update (s.word pt) i (marked (s.word pt i))))
unfolding cow_entry get_word set_word
cow_entry_lem pt i s = elim (Bool-cases (s.word pt i == entry_default)) [
  | inl e ↦ rw e (ap (λ x. ok (tt, x)) (sym (with_table_self s pt i)))
  | inr e ↦ elim (Bool-cases (has_bit read_write (entry_flags (s.word pt i)))) [
    | inl b ↦ rw (e, b) refl
    | inr b ↦ rw (e, b) (ap (λ x. ok (tt, x)) (sym (with_table_self s pt i)))
  ]
]

cow_entries_lem :
    (n pt i : ℕ) (s : Vm)
    → for_entries n i (cow_entry pt) s ≡ ok (tt, with_table s pt (changed marked n i (s.word pt)))
unfolding for_entries
cow_entries_lem zero pt i s =
    ap (λ x. ok (tt, x))
      (sym (with_table_same s pt)
        ∙ (λ k. with_table s pt (λ j. sym (changed-zero marked (s.word pt) i j) k)))
cow_entries_lem (suc n) pt i s =
    let w = update (s.word pt) i (marked (s.word pt i)) in
    ap (λ o. and_then o (λ _. for_entries n (i + 1) (cow_entry pt))) (cow_entry_lem pt i s)
    ∙ cow_entries_lem n pt (i + 1) (with_table s pt w)
    ∙ ap (λ x. ok (tt, x))
        (with_table_twice s pt w (changed marked n (i + 1) (update s.word pt w pt))
          ∙ (λ k. with_table s pt (changed marked n (i + 1) (update_at s.word pt w k)))
          ∙ (λ k. with_table s pt (λ j. changed-suc marked (s.word pt) n i j k)))

pub make_pt_cow_lem :
    (pt : ℕ) (s : Vm)
    → pt ≢ 0
    → make_pt_cow pt s ≡ ok (tt, with_table s pt (changed marked table_entries 0 (s.word pt)))
unfolding make_pt_cow
make_pt_cow_lem pt s ne = rw (≢→ne pt 0 ne) (cow_entries_lem table_entries pt 0 s)

marked-has_bit : (e : ℕ) → e ≢ entry_default → has_bit read_write (marked e) ≡ false
marked-has_bit e ne = ground arith

pub marked-entry_addr : (e : ℕ) → entry_addr (marked e) ≡ entry_addr e
marked-entry_addr e = ground arith

marked-present : (e : ℕ) → has_bit present (marked e) ≡ has_bit present e
marked-present e = ground arith

marked-cow :
    (e : ℕ) → e ≢ entry_default → has_bit read_write e ≡ true → has_bit cow_mode (marked e) ≡ true
marked-cow e ne h = ground arith
