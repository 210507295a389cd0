-- ===== src/Vm/Endings.antt =====
-- The loops of vm.c that map pages: the fuel that is enough for them.
use p.Base.{
  ℕ, zero, suc, ◌+◌, ◌*◌, ◌/◌, ◌%◌, ◌^◌, ◌≤◌, ◌<◌, ◌≡◌, refl, Bool, true, false, ◌||◌, not, ◌==◌,
  ltb, leb, if◌then◌else◌, Bool-cases, inl, inr, Option, none, some, arith,
}
use p.Frames.{user_mem_start, Outcome, ok, panic}
use p.Vm.Entry.{page_round_down}
use p.Vm.Defs.{Vm, M, pure, and_then, get_cr3, set_cur_pd, get_word, set_word}
use p.Vm.Access.{
  max_available_user_mem, Region, mapped, unmapped, invalid, is_memory_range_mapped,
  map_if_unmapped, new_pages_handler,
}
use p.Vm.Ranges.{is_memory_range_mapped_lem}
use p.Vm.Mapping.{
  Status, Error, success, error, nomem, map_page, map_pages, map_segment, map_new_pages, mark, walk,
}

-- The call has not run out of fuel: it has returned, or an assertion has stopped the kernel.
abbrev pub has_ended : Outcome (Option Status × Vm) → Bool
has_ended (ok (none, s)) = false
has_ended (ok (some st, s)) = true
has_ended panic = true

ends-and_then :
    {A : Type 0} (o : Outcome (A × Vm)) (f : A → M (Option Status))
    → ((a : A) (t : Vm) → has_ended (f a t) ≡ true)
    → has_ended (and_then o f) ≡ true
ends-and_then (ok (a, s)) f h = h a s
ends-and_then panic f h = refl

-- The same after a call that has ended itself.
ends-then :
    (o : Outcome (Option Status × Vm)) (f : Option Status → M (Option Status))
    → has_ended o ≡ true
    → ((t : Vm) → has_ended (f (some success) t) ≡ true)
    → ((e : Error) (t : Vm) → has_ended (f (some (error e)) t) ≡ true)
    → has_ended (and_then o f) ≡ true
ends-then (ok (none, s)) f done h k = absurd (cc)
ends-then (ok (some success, s)) f done h k = h s
ends-then (ok (some (error e), s)) f done h k = k e s
ends-then panic f done h k = refl

module _ (count : ℕ) where
  map_pages-ends :
      (pd flags end fuel addr : ℕ) (s : Vm)
      → 0 < fuel
      → end + 4096 ≤ addr + 4096 * fuel
      → end + 4096 ≤ 2 ^ 32
      → has_ended (map_pages count pd flags end fuel addr s) ≡ true
  unfolding map_pages
  map_pages-ends pd flags end zero addr s positive enough fits = absurd (omega arith)
  map_pages-ends pd flags end (suc fuel) addr s positive enough fits =
      elim (Bool-cases (ltb addr end)) [
        | inl below ↦
            let less : addr < end = ground arith in
            rw below (
              ends-and_then (map_page count pd addr flags s) _ (λ mapped t.
                elim mapped
                  as (λ m.
                    has_ended (
                      (if m
                          then map_pages count pd flags end fuel ((addr + 4096) % 2 ^ 32)
                          else pure (some (error nomem)))
                        t)
                    ≡ true) [
                      | true ↦
                          map_pages-ends pd flags end fuel ((addr + 4096) % 2 ^ 32) t (omega arith)
                            (omega arith) fits
                      | false ↦ refl
                    ]))
        | inr over ↦ rw over refl
      ]

  map_segment-ends :
      (fuel start length pd flags : ℕ) (s : Vm)
      → start + length + 4096 ≤ 2 ^ 32
      → (length + 4095) / 4096 + 1 < fuel
      → has_ended (map_segment count fuel start length pd flags s) ≡ true
  unfolding map_segment set_cur_pd
  map_segment-ends fuel start length pd flags s fits enough =
      map_pages-ends pd flags ((start + length) % 2 ^ 32) fuel (page_round_down start) _
        (omega arith) (omega arith) (omega arith)

  map_new_pages-ends :
      (fuel base length : ℕ) (s : Vm)
      → base + length + 4096 ≤ 2 ^ 32
      → (length + 4095) / 4096 + 1 < fuel
      → has_ended (map_new_pages count fuel base length s) ≡ true
  unfolding map_new_pages get_cr3 set_cur_pd mark walk get_word set_word
  map_new_pages-ends fuel base length s fits enough =
      ends-then (map_segment count fuel base length s.cr3 _ s) _
        (map_segment-ends fuel base length s.cr3 _ s fits enough) (λ t. refl) (λ e t. refl)

range-ends :
    (fuel base len : ℕ) (s : Vm)
    → 0 < len
    → len < 2 ^ 31
    → base + len + 4096 < 2 ^ 32
    → len / 4096 + 2 < fuel
    → (r : Region) × (is_memory_range_mapped fuel base len s ≡ some r)
unfolding is_memory_range_mapped
range-ends fuel base len s pos small fits enough = elim (Bool-cases (ltb base user_mem_start)) [
  | inl kernel ↦
      elim (Bool-cases
        ((base == 0) || (len == 0) || leb (2 ^ 31) len || ltb max_available_user_mem len)) [
          | inl bad ↦ (invalid, rw bad refl)
          | inr good ↦ (mapped, rw (good, kernel) refl)
        ]
  | inr user ↦
      (_, is_memory_range_mapped_lem fuel base len s (ground arith) pos small fits (omega arith))
]

module _ (count fuel base len : ℕ) (s : Vm) (fits : base + len + 4096 < 2 ^ 32)
    (enough : len / 4096 + 2 < fuel) where
  map_if_unmapped-ends :
      (r : Region) → has_ended (map_if_unmapped count fuel base len (some r) s) ≡ true
  unfolding map_if_unmapped
  map_if_unmapped-ends unmapped =
      map_new_pages-ends count fuel base len s (omega arith) (omega arith)
  map_if_unmapped-ends mapped = refl
  map_if_unmapped-ends invalid = refl

  -- For a range that ends below the last page of the address space, with fuel for three pages
  -- more than its length has, new_pages does not run out of fuel: it returns, or an assertion has
  -- stopped the kernel.
  pub new_pages_handler-ends : has_ended (new_pages_handler count fuel base len s) ≡ true
  unfolding new_pages_handler
  new_pages_handler-ends =
      elim (Bool-cases
        ((len == 0) || leb (2 ^ 31) len || not (len % 4096 == 0) || not (base % 4096 == 0))) [
          | inl bad ↦ rw bad refl
          | inr good ↦
              let (r, answer) =
                range-ends fuel base len s (ground arith) (ground arith) fits enough in
              rw (good, answer) (map_if_unmapped-ends r)
        ]
