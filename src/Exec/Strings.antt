-- ===== src/Exec/Strings.antt =====
-- `copy_user_data` against the strings that stand in user memory.
use p.Base.{
  ℕ, zero, suc, ◌+◌, ◌%◌, ◌^◌, ◌<◌, ◌≡◌, ◌≢◌, ◌↔◌, refl, ◌∙◌, sym, Bool, true, false, ◌==◌, ◌||◌,
  leb, if-true, if-false, Bool-cases, inl, inr, eq→≡, ne→≢, ≢→ne, Option, none, some, List, [], ◌∷◌,
  ◌++◌, length, arith,
}
use p.Vm.{Vm, is_pointer_valid}
use p.Exec.Defs.{
  read_byte, Copy, copied, err_inval, err_big, prepend, copy_byte, copy_bytes, copy_user_data,
}

module _ (fuel : ℕ) (t : Vm) where
  -- The bytes from `ptr` on are those of the list and then 0, each where `is_pointer_valid` allows.
  abbrev pub IsString : (ptr : ℕ) → List ℕ → Type 0
  IsString ptr [] = (is_pointer_valid fuel ptr 1 t ≡ some true) × (read_byte t ptr ≡ 0)
  IsString ptr (c ∷ cs) =
      (is_pointer_valid fuel ptr 1 t ≡ some true)
      × (read_byte t ptr ≡ c)
      × (c ≢ 0)
      × IsString ((ptr + 1) % 2 ^ 32) cs

  copy_bytes-IsString :
      (n ptr : ℕ) (cs : List ℕ)
      → IsString ptr cs
      → length cs < n
      → copy_bytes fuel t n ptr ≡ some (copied (cs ++ 0 ∷ []))
  unfolding copy_bytes copy_byte
  copy_bytes-IsString zero ptr cs string fits = absurd (omega arith)
  copy_bytes-IsString (suc n) ptr [] string fits = rw (string.0, string.1) refl
  copy_bytes-IsString (suc n) ptr (c ∷ cs) string fits =
      rw
        (
          string.0,
          string.1,
          ≢→ne c 0 string.2,
          copy_bytes-IsString n ((ptr + 1) % 2 ^ 32) cs string.3 (omega arith),
        )
        refl

  prepend-copied :
      (c : ℕ) (rest : Option Copy) (b : ℕ) (bs : List ℕ)
      → prepend c rest ≡ some (copied (b ∷ bs))
      → (c ≡ b) × (rest ≡ some (copied bs))
  prepend-copied c none b bs e = absurd (cc)
  prepend-copied c (some (copied cs)) b bs e = (cc, cc)
  prepend-copied c (some err_inval) b bs e = absurd (cc)
  prepend-copied c (some err_big) b bs e = absurd (cc)

  option_copied : {a b : Copy} → some a ≡ some b → a ≡ b
  option_copied e = cc

  ends_not : (b : ℕ) (bs : List ℕ) → copied (0 ∷ []) ≢ copied (b ∷ bs ++ 0 ∷ [])
  ends_not b [] e = absurd (cc)
  ends_not b (x ∷ bs) e = absurd (cc)

  -- What one round must have seen when the copy succeeds.
  byte-copied :
      (v : Option Bool) (c : ℕ) (rest : Option Copy) (b : ℕ) (bs : List ℕ)
      → copy_byte v c rest ≡ some (copied (b ∷ bs ++ 0 ∷ []))
      → (v ≡ some true) × (c ≡ b) × (b ≢ 0) × (rest ≡ some (copied (bs ++ 0 ∷ [])))
  unfolding copy_byte
  byte-copied none c rest b bs e = absurd (cc)
  byte-copied (some false) c rest b bs e = absurd (cc)
  byte-copied (some true) c rest b bs e = elim (Bool-cases (c == 0)) [
    | inl zero_byte ↦
        absurd (ends_not b bs (option_copied (sym (if-true (c == 0) _ _ zero_byte) ∙ e)))
    | inr other ↦
        let (same, later) =
          prepend-copied c rest b (bs ++ 0 ∷ []) (sym (if-false (c == 0) _ _ other) ∙ e) in
        (refl, same, λ z. ne→≢ c 0 other (same ∙ z), later)
  ]

  byte-last :
      (v : Option Bool) (c : ℕ) (rest : Option Copy)
      → copy_byte v c rest ≡ some (copied (0 ∷ []))
      → (v ≡ some true) × (c ≡ 0)
  unfolding copy_byte
  byte-last none c rest e = absurd (cc)
  byte-last (some false) c rest e = absurd (cc)
  byte-last (some true) c rest e = elim (Bool-cases (c == 0)) [
    | inl zero_byte ↦ (refl, eq→≡ c 0 zero_byte)
    | inr other ↦ (refl, (prepend-copied c rest 0 [] (sym (if-false (c == 0) _ _ other) ∙ e)).0)
  ]

  IsString-copy_bytes :
      (n ptr : ℕ) (cs : List ℕ)
      → copy_bytes fuel t n ptr ≡ some (copied (cs ++ 0 ∷ []))
      → IsString ptr cs × (length cs < n)
  unfolding copy_bytes
  IsString-copy_bytes zero ptr cs e = absurd (cc)
  IsString-copy_bytes (suc n) ptr [] e = (
    byte-last (is_pointer_valid fuel ptr 1 t) (read_byte t ptr)
        (copy_bytes fuel t n ((ptr + 1) % 2 ^ 32)) e,
    omega arith,
  )
  IsString-copy_bytes (suc n) ptr (c ∷ cs) e =
      let (valid, byte, more, later) =
        byte-copied (is_pointer_valid fuel ptr 1 t) (read_byte t ptr)
          (copy_bytes fuel t n ((ptr + 1) % 2 ^ 32)) c cs e in
      let (string, fits) = IsString-copy_bytes n ((ptr + 1) % 2 ^ 32) cs later in
      ((valid, byte, more, string), omega (arith, fits))

  -- For a user pointer that is not NULL and a positive int as the maximal size, copy_user_data
  -- returns a sequence of bytes and a terminating 0 exactly when these bytes stand at the
  -- pointer, none but the last 0 and each where is_pointer_valid allows, and all of them fit.
  pub copy_user_data-IsString :
      (ptr max_size : ℕ) (cs : List ℕ)
      → ptr ≢ 0
      → 0 < max_size
      → max_size < 2 ^ 31
      → (copy_user_data fuel t ptr max_size ≡ some (copied (cs ++ 0 ∷ [])))
        ↔ (IsString ptr cs × (length cs < max_size))
  unfolding copy_user_data
  copy_user_data-IsString ptr max_size cs given pos small =
      let ok : ((ptr == 0) || (max_size == 0) || leb (2 ^ 31) max_size) ≡ false =
        ground (arith, given, pos, small) in
      rw ok (
        IsString-copy_bytes max_size ptr cs,
        λ both. copy_bytes-IsString max_size ptr cs both.0 both.1,
      )
