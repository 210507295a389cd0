-- ===== src/Loader/Strings.antt =====
-- The argument strings on the stack of a new program.
use p.Base.{ℕ, suc, ◌+◌, ◌^◌, ◌<◌, ◌≡◌, inr, refl, ap, ◌∙◌, List, [], ◌∷◌, length, arith}
use p.Loader.Memory.{
  strcpy, StringAt, SameIn, SameBut, SameBut-then, AreWords, strcpy-SameBut, strcpy-StringAt,
  StringAt-same,
}
use p.Loader.Args.{back, Pushed, push_strings}

-- The bytes of the strings with their 0.
abbrev pub bytes_of : List (List ℕ) → ℕ
bytes_of [] = 0
bytes_of (s ∷ ss) = length s + 1 + bytes_of ss

-- Each pointer leads to its string.
abbrev pub PointTo : (ℕ → ℕ) → (pointers : List ℕ) → List (List ℕ) → Type 0
PointTo m [] [] = Unit
PointTo m [] (s ∷ ss) = ⊥
PointTo m (p ∷ ps) [] = ⊥
PointTo m (p ∷ ps) (s ∷ ss) = StringAt m p s × PointTo m ps ss

-- The strings stand from `low` below `high`, and the rest of the memory is as before.
pub record Strings (low high : ℕ) (ss : List (List ℕ)) (m : ℕ → ℕ) (r : Pushed) : Type 0 where
  pub top : r.1 ≡ low
  pub inside : (m' : ℕ → ℕ) → SameIn low high r.2 m' → PointTo m' r.0 ss
  pub words : AreWords r.0
  pub count : length r.0 ≡ length ss
  pub kept : SameBut low high m r.2

pub back-sum : (p n : ℕ) → p + n < 2 ^ 32 → back (p + n) n ≡ p
unfolding back
back-sum p n small = omega arith

pub push_strings-Strings :
    (low : ℕ) (ss : List (List ℕ)) (m : ℕ → ℕ)
    → low + bytes_of ss < 2 ^ 32
    → Strings low (low + bytes_of ss) ss m (push_strings ss (low + bytes_of ss) m)
unfolding push_strings back
push_strings-Strings low [] m small = record {
  top = omega arith;
  inside = λ m' same. tt;
  words = tt;
  count = refl;
  kept = λ a out. refl;
}
push_strings-Strings low (s ∷ ss) m small =
    let at : back (low + bytes_of (s ∷ ss)) (length s + 1) ≡ low + bytes_of ss =
      ap (λ top. back top (length s + 1)) (omega arith)
      ∙ back-sum (low + bytes_of ss) (length s + 1) (omega arith) in
    let m' = strcpy m (low + bytes_of ss) s in
    let rest = push_strings-Strings low ss m' (omega arith) in
    rw at record {
      top = rest.top;
      inside = λ other same. (
        StringAt-same m' other (low + bytes_of ss) s
            (λ a from to. same a (omega arith) (omega arith) ∙ rest.kept a (inr from))
            (strcpy-StringAt m (low + bytes_of ss) s),
        rest.inside other (λ a from to. same a from (omega arith)),
      );
      words = (omega arith, rest.words);
      count = ap suc rest.count;
      kept =
          SameBut-then low (low + bytes_of (s ∷ ss))
            (omega arith, omega arith, omega arith, omega arith)
            (strcpy-SameBut m (low + bytes_of ss) s) rest.kept;
    }
