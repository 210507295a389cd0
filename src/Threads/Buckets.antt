-- ===== src/Threads/Buckets.antt =====
-- Walks along one bucket of the thread table.
use p.Base.{
  ℕ, ◌≡◌, ◌≢◌, refl, sym, ◌∙◌, ◌==◌, Bool-cases, inl, inr, eq→≡, ne→≢, Option, none, some, List, [],
  ◌∷◌, ◌++◌, ◌∉◌, update, arith,
}
use p.Threads.Defs.{find_id, remove_id}

abbrev pub first_of : Option ℕ → Option ℕ → Option ℕ
first_of none o = o
first_of (some a) o = some a

pub find_id-append :
    (id : ℕ → ℕ) (i : ℕ) (q r : List ℕ)
    → find_id id i (q ++ r) ≡ first_of (find_id id i q) (find_id id i r)
unfolding find_id
find_id-append id i [] r = refl
find_id-append id i (x ∷ q) r = elim (Bool-cases (id x == i)) [
  | inl e ↦ rw e refl
  | inr e ↦ rw e (find_id-append id i q r)
]

-- A new id of a thread that is not in the bucket changes no walk.
pub find_id-update :
    (id : ℕ → ℕ) (thr n i : ℕ) (q : List ℕ)
    → thr ∉ q
    → find_id (update id thr n) i q ≡ find_id id i q
unfolding find_id
find_id-update id thr n i [] out = refl
find_id-update id thr n i (x ∷ q) out = ground (arith, out, find_id-update id thr n i q)

-- No two threads of the bucket have the same id.
abbrev pub Unique : (ℕ → ℕ) → List ℕ → Type 0
Unique id [] = Unit
Unique id (x ∷ q) = (find_id id (id x) q ≡ none) × Unique id q

pub Unique-update :
    (id : ℕ → ℕ) (thr n : ℕ) (q : List ℕ) → thr ∉ q → Unique id q → Unique (update id thr n) q
Unique-update id thr n [] out u = tt
Unique-update id thr n (x ∷ q) out u =
    let same : update id thr n x ≡ id x = ground (arith, out) in
    let rest : thr ∉ q = ground (arith, out) in
    (rw same (find_id-update id thr n (id x) q rest ∙ u.0), Unique-update id thr n q rest u.1)

pub Unique-snoc :
    (id : ℕ → ℕ) (x : ℕ) (q : List ℕ)
    → find_id id (id x) q ≡ none
    → Unique id q
    → Unique id (q ++ x ∷ [])
unfolding find_id
Unique-snoc id x [] out u = (refl, tt)
Unique-snoc id x (y ∷ q) out u = (
  rw (find_id-append id (id y) q (x ∷ []), u.0) (ground (arith, out)),
  Unique-snoc id x q (ground (arith, out)) u.1,
)

pub remove_id-other :
    (id : ℕ → ℕ) (i j : ℕ) (q : List ℕ) → j ≢ i → find_id id j (remove_id id i q) ≡ find_id id j q
unfolding find_id remove_id
remove_id-other id i j [] ne = refl
remove_id-other id i j (x ∷ q) ne = ground (arith, ne, remove_id-other id i j q ne)

pub remove_id-same :
    (id : ℕ → ℕ) (i : ℕ) (q : List ℕ) → Unique id q → find_id id i (remove_id id i q) ≡ none
unfolding find_id remove_id
remove_id-same id i [] u = refl
remove_id-same id i (x ∷ q) u = elim (Bool-cases (id x == i)) [
  | inl here ↦ rw (here, sym (eq→≡ (id x) i here)) u.0
  | inr other ↦ rw (other, other) (remove_id-same id i q u.1)
]

pub Unique-remove_id :
    (id : ℕ → ℕ) (i : ℕ) (q : List ℕ) → Unique id q → Unique id (remove_id id i q)
unfolding remove_id
Unique-remove_id id i [] u = tt
Unique-remove_id id i (x ∷ q) u = elim (Bool-cases (id x == i)) [
  | inl here ↦ rw here u.1
  | inr other ↦
      rw other
        (remove_id-other id i (id x) q (ne→≢ (id x) i other) ∙ u.0, Unique-remove_id id i q u.1)
]
