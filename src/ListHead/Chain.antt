-- ===== src/ListHead/Chain.antt =====
-- What a list head stands for: the nodes reached by `next`, with `prev` the way back.
use p.Base.{
  ℕ, ◌≡◌, refl, ◌≢◌, ◌∷◌, [], ◌++◌, List, has-append, Option, none, some, arith, ◌∈◌, ◌∉◌, Distinct,
}
use p.ListHead.Defs.{Links, init_head, get_first, get_last}

-- From `a` through `xs` to `b`, each link and its way back.
abbrev pub Chain : Links → ℕ → List ℕ → ℕ → Type 0
Chain h a [] b = (h.next a ≡ b) × (h.prev b ≡ a)
Chain h a (x ∷ xs) b = (h.next a ≡ x) × (h.prev x ≡ a) × Chain h x xs b

-- `head` heads the list of the nodes `xs`, first to last.
pub record IsList (h : Links) (head : ℕ) (xs : List ℕ) : Type 0 where
  pub chain : Chain h head xs head
  pub distinct : Distinct (head ∷ xs)

-- The last of `a ∷ xs`, and the first of `xs` with `b` behind it.
abbrev pub last_from : ℕ → List ℕ → ℕ
last_from a [] = a
last_from a (x ∷ xs) = last_from x xs

abbrev pub first_or : List ℕ → ℕ → ℕ
first_or [] b = b
first_or (x ∷ xs) b = x

abbrev pub head? : List ℕ → Option ℕ
head? [] = none
head? (x ∷ xs) = some x

abbrev pub get_last? : List ℕ → Option ℕ
get_last? [] = none
get_last? (x ∷ xs) = some (last_from x xs)

pub last_from-mem : (a : ℕ) (xs : List ℕ) → last_from a xs ∈ a ∷ xs
last_from-mem a [] = ground arith
last_from-mem a (x ∷ xs) = ground (arith, last_from-mem x xs)

pub ne_of_mem : (a c : ℕ) (xs : List ℕ) → c ∈ xs → a ∉ xs → a ≢ c
ne_of_mem a c [] i o = ground arith
ne_of_mem a c (x ∷ xs) i o = ground (arith, ne_of_mem a c xs)

pub ne-last_from : (a x : ℕ) (xs ys : List ℕ) → a ∉ x ∷ xs ++ ys → a ≢ last_from x xs
ne-last_from a x xs ys o =
    ground (arith, has-append a xs ys, last_from-mem x xs, ne_of_mem a (last_from x xs) (x ∷ xs))

pub ne-first_or : (x : ℕ) (xs ys : List ℕ) (b : ℕ) → x ∉ xs ++ ys → x ≢ b → x ≢ first_or ys b
ne-first_or x xs [] b o ne = ne
ne-first_or x xs (y ∷ ys) b o ne = ground (arith, has-append x xs (y ∷ ys))

-- A chain survives writes to other nodes.
pub Chain-frame :
    (h g : Links) (a : ℕ) (xs : List ℕ) (b : ℕ)
    → Chain h a xs b
    → ((c : ℕ) → c ∈ a ∷ xs → g.next c ≡ h.next c)
    → ((c : ℕ) → c ∈ xs → g.prev c ≡ h.prev c)
    → g.prev b ≡ h.prev b
    → Chain g a xs b
Chain-frame h g a [] b k nx pv pb = ground (arith, nx a)
Chain-frame h g a (x ∷ xs) b k nx pv pb = (
  ground (arith, nx a),
  ground (arith, pv x),
  Chain-frame h g x xs b k.2 (λ c i. nx c (ground arith)) (λ c i. pv c (ground arith)) pb,
)

pub next-first :
    (h : Links) (a : ℕ) (xs : List ℕ) (b : ℕ) → Chain h a xs b → h.next a ≡ first_or xs b
next-first h a [] b k = k.0
next-first h a (x ∷ xs) b k = k.0

pub prev-last :
    (h : Links) (a : ℕ) (xs : List ℕ) (b : ℕ) → Chain h a xs b → h.prev b ≡ last_from a xs
prev-last h a [] b k = k.1
prev-last h a (x ∷ xs) b k = prev-last h x xs b k.2

-- A fresh head is the empty list, whatever the memory held before.
pub init_head-IsList : (head : ℕ) (h : Links) → IsList (init_head head h) head []
unfolding init_head
init_head-IsList head h = record { chain = ground arith; distinct = (refl, tt) }

-- get_first and get_last return the first and the last node of a list, NULL when it is empty.
pub get_first_last :
    {h : Links} {head : ℕ} {xs : List ℕ}
    → IsList h head xs
    → (get_first head h ≡ head? xs) × (get_last head h ≡ get_last? xs)
unfolding get_first get_last
get_first_last {h} {head} {xs = []} l = ground (arith, l.chain)
get_first_last {h} {head} {xs = x ∷ xs} l = ground (
  arith,
  l.chain,
  l.distinct,
  prev-last h x xs head l.chain.2,
  last_from-mem x xs,
  ne_of_mem head (last_from x xs) (x ∷ xs),
)
