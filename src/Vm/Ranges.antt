-- ===== src/Vm/Ranges.antt =====
-- Address ranges: what `is_memory_range_mapped` and `is_pointer_valid` answer for a range of user
-- memory, and for one that runs over the end of the address space.
use p.Base.{
  ℕ, zero, suc, ◌+◌, ◌*◌, ◌/◌, ◌%◌, ◌^◌, ◌≤◌, ◌<◌, ◌≡◌, refl, ◌∙◌, ap, Bool, true, false, ◌||◌, not,
  ◌==◌, ltb, leb, if◌then◌else◌, Option, some, arith, ◌⊎◌, if-false, if-both,
}
use p.Frames.{user_mem_start, ok}
use p.Vm.Entry.{page_round_down}
use p.Vm.Defs.{Vm}
use p.Vm.Mapping.{error, inval}
use p.Vm.Access.{
  Region, mapped, unmapped, invalid, is_page_mapped, scan_pages, is_memory_range_mapped,
  is_pointer_valid, max_available_user_mem, accepted, map_if_unmapped, new_pages_handler,
}

-- Whether one of the `n` pages from `base` on is mapped.
abbrev pub some_mapped : Vm → (n base : ℕ) → Bool
some_mapped s zero base = false
some_mapped s (suc n) base = is_page_mapped s base || some_mapped s n (base + 4096)

abbrev pub region : Bool → Region
region b = if b then mapped else unmapped

le→leb : (a b : ℕ) → a ≤ b → leb a b ≡ true
le→leb a b h = ground arith

wrap-small : (a : ℕ) → a < 2 ^ 32 → a % 2 ^ 32 ≡ a
wrap-small a h = omega arith

region-step :
    (b c : Bool) (rest : Option Region)
    → rest ≡ some (region c)
    → (if b then some mapped else rest) ≡ some (region (b || c))
region-step true c rest h = refl
region-step false c rest h = h

scan_pages_lem :
    (s : Vm) (n fuel end base : ℕ)
    → n < fuel
    → end < base + 4096 * n
    → base + 4096 * n ≤ end + 4096
    → end + 4096 < 2 ^ 32
    → scan_pages s end fuel base ≡ some (region (some_mapped s n base))
unfolding scan_pages
scan_pages_lem s n zero end base f a b c = ground arith
scan_pages_lem s zero (suc fuel) end base f a b c = ground arith
scan_pages_lem s (suc n) (suc fuel) end base f a b c =
    let ih =
      scan_pages_lem s n fuel end (base + 4096) (omega arith) (omega arith) (omega arith) c in
    rw (le→leb base end (omega arith)) (
      region-step (is_page_mapped s base) (some_mapped s n (base + 4096))
        (scan_pages s end fuel ((base + 4096) % 2 ^ 32))
        (ap (scan_pages s end fuel) (wrap-small (base + 4096) (omega arith)) ∙ ih))

scan_pages_wrapped :
    (s : Vm) (fuel end base : ℕ)
    → 0 < fuel
    → end < base
    → scan_pages s end fuel base ≡ some unmapped
unfolding scan_pages
scan_pages_wrapped s zero end base f a = ground arith
scan_pages_wrapped s (suc fuel) end base f a = ground arith

-- The pages that the scan looks at: one more than the range touches when its end is aligned.
abbrev pub pages_scanned : (base len : ℕ) → ℕ
pages_scanned base len = (base % 4096 + len) / 4096 + 1

in_bounds :
    (base len : ℕ)
    → user_mem_start ≤ base
    → 0 < len
    → len < 2 ^ 31
    → ((base == 0) || (len == 0) || leb (2 ^ 31) len || ltb max_available_user_mem len) ≡ false
in_bounds base len u l h = ground arith

invalid_length :
    (ptr len : ℕ)
    → (len ≡ 0) ⊎ (2 ^ 31 ≤ len)
    → ((ptr == 0) || (len == 0) || leb (2 ^ 31) len || ltb max_available_user_mem len) ≡ true
invalid_length ptr len bad = ground arith

not_below : (a : ℕ) → user_mem_start ≤ a → ltb a user_mem_start ≡ false
not_below a u = ground arith

accepted-region : (b : Bool) → accepted (some (region b)) ≡ some b
accepted-region true = refl
accepted-region false = refl

accepted-is_pointer_valid :
    (fuel ptr bytes : ℕ) (s : Vm)
    → user_mem_start ≤ ptr
    → is_pointer_valid fuel ptr bytes s ≡ accepted (is_memory_range_mapped fuel ptr bytes s)
unfolding is_pointer_valid
accepted-is_pointer_valid fuel ptr bytes s user =
    if-false (ltb ptr user_mem_start) (some false)
      (accepted (is_memory_range_mapped fuel ptr bytes s)) (not_below ptr user)

module _ (fuel base len : ℕ) (s : Vm) (user : user_mem_start ≤ base) (positive : 0 < len)
    (small : len < 2 ^ 31) where
  in_range :
      is_memory_range_mapped fuel base len s
      ≡ scan_pages s ((base + len) % 2 ^ 32) fuel (page_round_down base)
  unfolding is_memory_range_mapped
  in_range = rw (in_bounds base len user positive small) (rw (not_below base user) refl)

  -- For a user range of 1 to 2^31 - 1 bytes that ends below the last page of the address space,
  -- with fuel for its pages, is_memory_range_mapped ends and answers MAPPED when one of the pages
  -- it looks at is mapped and UNMAPPED when none is; it looks at one page more than an aligned
  -- range has.
  pub is_memory_range_mapped_lem :
      base + len + 4096 < 2 ^ 32
      → pages_scanned base len < fuel
      → is_memory_range_mapped fuel base len s
        ≡ some (region (some_mapped s (pages_scanned base len) (page_round_down base)))
  is_memory_range_mapped_lem fits enough =
      in_range
      ∙ ap (λ e. scan_pages s e fuel (page_round_down base)) (wrap-small (base + len) (omega arith))
      ∙ scan_pages_lem s (pages_scanned base len) fuel (base + len) (page_round_down base) enough
          (omega arith) (omega arith) fits

  -- A user range of 1 to 2^31 - 1 bytes that runs over the end of the address space is reported
  -- as UNMAPPED, whatever is mapped.
  is_memory_range_mapped_wrapped :
      2 ^ 32 ≤ base + len
      → base < 2 ^ 32
      → 0 < fuel
      → is_memory_range_mapped fuel base len s ≡ some unmapped
  is_memory_range_mapped_wrapped over word enough =
      in_range
      ∙ scan_pages_wrapped s fuel ((base + len) % 2 ^ 32) (page_round_down base) enough
          (omega arith)

  -- For a user range of 1 to 2^31 - 1 bytes that ends below the last page of the address space,
  -- with fuel for its pages, is_pointer_valid ends and accepts it exactly when one of the pages
  -- looked at is mapped.
  is_pointer_valid_lem :
      base + len + 4096 < 2 ^ 32
      → pages_scanned base len < fuel
      → is_pointer_valid fuel base len s
        ≡ some (some_mapped s (pages_scanned base len) (page_round_down base))
  is_pointer_valid_lem fits enough =
      accepted-is_pointer_valid fuel base len s user
      ∙ ap accepted (is_memory_range_mapped_lem fits enough)
      ∙ accepted-region (some_mapped s (pages_scanned base len) (page_round_down base))

range-invalid :
    (fuel ptr len : ℕ) (s : Vm)
    → (len ≡ 0) ⊎ (2 ^ 31 ≤ len)
    → is_memory_range_mapped fuel ptr len s ≡ some invalid
unfolding is_memory_range_mapped
range-invalid fuel ptr len s bad = rw (invalid_length ptr len bad) refl

-- is_pointer_valid accepts every user pointer with a length of zero or below.
is_pointer_valid-invalid :
    (fuel ptr bytes : ℕ) (s : Vm)
    → user_mem_start ≤ ptr
    → (bytes ≡ 0) ⊎ (2 ^ 31 ≤ bytes)
    → is_pointer_valid fuel ptr bytes s ≡ some true
is_pointer_valid-invalid fuel ptr bytes s user bad =
    accepted-is_pointer_valid fuel ptr bytes s user
    ∙ ap accepted (range-invalid fuel ptr bytes s bad)

-- new_pages returns ERR_INVAL and changes nothing for a user range of 1 to 2^31 - 1 bytes that
-- ends below the last page of the address space, when one of the pages looked at is mapped and
-- the fuel is enough for them.
new_pages_handler-inval :
    (count fuel base len : ℕ) (s : Vm)
    → user_mem_start ≤ base
    → 0 < len
    → len < 2 ^ 31
    → base + len + 4096 < 2 ^ 32
    → pages_scanned base len < fuel
    → some_mapped s (pages_scanned base len) (page_round_down base) ≡ true
    → new_pages_handler count fuel base len s ≡ ok (some (error inval), s)
unfolding new_pages_handler
new_pages_handler-inval count fuel base len s user pos small fits enough m =
    if-both ((len == 0) || leb (2 ^ 31) len || not (len % 4096 == 0) || not (base % 4096 == 0))
      (ok (some (error inval), s))
      (map_if_unmapped count fuel base len (is_memory_range_mapped fuel base len s) s)
      (ok (some (error inval), s)) refl
      (ap (λ r. map_if_unmapped count fuel base len r s)
        (is_memory_range_mapped_lem fuel base len s user pos small fits enough
          ∙ ap (λ b. some (region b)) m))
