-- ===== src/Base/Lists.antt =====
-- Lists measured and indexed by native numbers, membership as a test, and functions as arrays.
use Prim.Native.Nat.{ℕ, zero, suc, ◌+◌, ◌-◌}
use mathlib.Core.Path.{◌≡◌, refl}
use mathlib.Core.Bool.{Bool, true, false, not, ◌&&◌, ◌||◌}
use mathlib.Core.List.{List, [], ◌∷◌, ◌++◌}
use p.Base.Tests.{◌==◌, leb, ltb, if◌then◌else◌, Bool-cases}
use native.Mathlib.Omega.{arith}
use mathlib.Core.Logic.{inl, inr}

module _ {ℓ} {A : Type ℓ} where
  abbrev pub length : List A → ℕ
  length [] = 0
  length (_ ∷ xs) = suc (length xs)

  pub length-append : (xs ys : List A) → length (xs ++ ys) ≡ length xs + length ys
  length-append [] ys = omega arith
  length-append (x ∷ xs) ys = omega (arith, length-append xs ys)

  abbrev pub take : ℕ → List A → List A
  take zero xs = []
  take (suc n) [] = []
  take (suc n) (x ∷ xs) = x ∷ take n xs

-- A write to one index of an array, a block of memory or a table.
abbrev pub update {ℓ} : {A : Type ℓ} → (ℕ → A) → ℕ → A → ℕ → A
update f i a j = if j == i then a else f j

-- `memcpy` of `n` bytes from `src` in one memory to `dest` in another.
abbrev pub memcpy : (to from : ℕ → ℕ) → (dest src n : ℕ) → ℕ → ℕ
memcpy to from dest src n a =
    if leb dest a && ltb a (dest + n) then from (src + (a - dest)) else to a

-- Membership as a test, which the arithmetic tactics read.
abbrev pub has : ℕ → List ℕ → Bool
has a [] = false
has a (x ∷ xs) = (a == x) || has a xs

infix 40 ◌∈◌ ◌∉◌
abbrev pub ◌∈◌ : ℕ → List ℕ → Type 0
a ∈ xs = has a xs ≡ true

abbrev pub ◌∉◌ : ℕ → List ℕ → Type 0
a ∉ xs = has a xs ≡ false

-- No element stands twice.
abbrev pub Distinct : List ℕ → Type 0
Distinct [] = Unit
Distinct (x ∷ xs) = (x ∉ xs) × Distinct xs

pub has-append : (a : ℕ) (xs ys : List ℕ) → has a (xs ++ ys) ≡ (has a xs || has a ys)
has-append a [] ys = refl
has-append a (x ∷ xs) ys = ground (arith, has-append a xs ys)

pub Distinct-snoc : (xs : List ℕ) (a : ℕ) → Distinct xs → a ∉ xs → Distinct (xs ++ (a ∷ []))
Distinct-snoc [] a d out = (refl, tt)
Distinct-snoc (x ∷ xs) a d out =
    (ground (arith, has-append x xs (a ∷ [])), Distinct-snoc xs a d.1 (ground arith))

pub Distinct-insert :
    (xs ys : List ℕ) (n : ℕ) → Distinct (xs ++ ys) → n ∉ xs ++ ys → Distinct (xs ++ n ∷ ys)
Distinct-insert [] ys n d o = (o, d)
Distinct-insert (x ∷ xs) ys n d o = (
  ground (arith, has-append x xs (n ∷ ys), has-append x xs ys),
  Distinct-insert xs ys n d.1 (ground arith),
)

pub Distinct-drop :
    (n : ℕ) (xs ys : List ℕ) → Distinct (xs ++ n ∷ ys) → Distinct (xs ++ ys) × (n ∉ xs ++ ys)
Distinct-drop n [] ys d = (d.1, d.0)
Distinct-drop n (x ∷ xs) ys d =
    let (rest, out) = Distinct-drop n xs ys d.1 in
    (
      (ground (arith, has-append x xs (n ∷ ys), has-append x xs ys), rest),
      ground (arith, has-append x xs (n ∷ ys)),
    )

-- Takes out the first `a`.
abbrev pub remove : ℕ → List ℕ → List ℕ
remove a [] = []
remove a (x ∷ xs) = if a == x then xs else x ∷ remove a xs

not-mem-remove : (a b : ℕ) (xs : List ℕ) → b ∉ xs → b ∉ remove a xs
not-mem-remove a b [] o = refl
not-mem-remove a b (x ∷ xs) o = ground (arith, not-mem-remove a b xs)

pub length-remove : (a : ℕ) (xs : List ℕ) → a ∈ xs → suc (length (remove a xs)) ≡ length xs
length-remove a [] i = cc
length-remove a (x ∷ xs) i = ground (arith, length-remove a xs)

pub Distinct-remove :
    (a : ℕ) (xs ys : List ℕ)
    → a ∈ xs
    → Distinct (xs ++ ys)
    → Distinct (remove a xs ++ ys) × (a ∉ remove a xs ++ ys)
Distinct-remove a [] ys i d = absurd (cc)
Distinct-remove a (x ∷ xs) ys i d = elim (Bool-cases (a == x)) [
  | inl same ↦ rw same (d.1, ground arith)
  | inr other ↦
      let (rest, out) = Distinct-remove a xs ys (ground arith) d.1 in
      rw other (
        (
          ground (arith, has-append x (remove a xs) ys, has-append x xs ys, not-mem-remove a x xs),
          rest,
        ),
        ground arith,
      )
]

-- What holds of all entries of a table and of a new value holds after the write.
pub update_all {ℓ κ} :
    {A : Type ℓ} (P : A → Type κ) (f : ℕ → A) (i : ℕ) (a : A)
    → ((j : ℕ) → P (f j))
    → P a
    → (j : ℕ) → P (update f i a j)
update_all P f i a all new j = elim (Bool-cases (j == i)) [
  | inl same ↦ rw same new
  | inr other ↦ rw other (all j)
]

pub Distinct-append :
    (xs ys : List ℕ) → Distinct xs → Distinct ys → ((a : ℕ) → a ∈ xs → a ∉ ys) → Distinct (xs ++ ys)
Distinct-append [] ys d d' apart = d'
Distinct-append (x ∷ xs) ys d d' apart = (
  ground (arith, has-append x xs ys, apart x),
  Distinct-append xs ys d.1 d' (λ a m. apart a (ground arith)),
)

-- Removal takes out that element alone.
pub has-remove :
    (a b : ℕ) (xs : List ℕ) → Distinct xs → has a (remove b xs) ≡ (has a xs && not (a == b))
has-remove a b [] d = refl
has-remove a b (x ∷ xs) d = ground (arith, d.0, has-remove a b xs d.1)

pub Distinct-without : (b : ℕ) (xs : List ℕ) → Distinct xs → Distinct (remove b xs)
Distinct-without b [] d = tt
Distinct-without b (x ∷ xs) d = elim (Bool-cases (b == x)) [
  | inl same ↦ rw same d.1
  | inr other ↦ rw other (ground (arith, d.0, has-remove x b xs d.1), Distinct-without b xs d.1)
]
