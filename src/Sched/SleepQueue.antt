-- ===== src/Sched/SleepQueue.antt =====
-- The sleepers stay sorted by wake time, and those due at the same time in the order they came.
use p.Base.{
  ap, ℕ, ◌+◌, ◌≤◌, ◌≡◌, refl, List, [], ◌∷◌, ◌++◌, arith, ◌∉◌, Distinct, has, ◌||◌, ◌==◌, ltb,
  Bool-cases, inl, inr,
}
use p.Sched.Defs.{sleep_insert}

-- Every thread of the queue wakes at `n` or later.
abbrev pub AllFrom : (ℕ → ℕ) → ℕ → List ℕ → Type 0
AllFrom wake n [] = Unit
AllFrom wake n (t ∷ q) = (n ≤ wake t) × AllFrom wake n q

abbrev pub Sorted : (ℕ → ℕ) → List ℕ → Type 0
Sorted wake [] = Unit
Sorted wake (t ∷ q) = AllFrom wake (wake t) q × Sorted wake q

AllFrom-insert :
    (wake : ℕ → ℕ) (n thr : ℕ) (q : List ℕ)
    → n ≤ wake thr
    → AllFrom wake n q
    → AllFrom wake n (sleep_insert wake thr q)
unfolding sleep_insert
AllFrom-insert wake n thr [] h a = (h, tt)
AllFrom-insert wake n thr (t ∷ q) h a = elim (Bool-cases (ltb (wake thr) (wake t))) [
  | inl before ↦ rw before (h, a)
  | inr behind ↦ rw behind (a.0, AllFrom-insert wake n thr q h a.1)
]

AllFrom-mono : (wake : ℕ → ℕ) (n m : ℕ) (q : List ℕ) → n ≤ m → AllFrom wake m q → AllFrom wake n q
AllFrom-mono wake n m [] h a = tt
AllFrom-mono wake n m (t ∷ q) h a = (omega (arith, a.0), AllFrom-mono wake n m q h a.1)

pub sleep_insert-Sorted :
    (wake : ℕ → ℕ) (thr : ℕ) (q : List ℕ) → Sorted wake q → Sorted wake (sleep_insert wake thr q)
unfolding sleep_insert
sleep_insert-Sorted wake thr [] s = (tt, tt)
sleep_insert-Sorted wake thr (t ∷ q) s = elim (Bool-cases (ltb (wake thr) (wake t))) [
  | inl before ↦
      rw before ((ground arith, AllFrom-mono wake (wake thr) (wake t) q (ground arith) s.0), s)
  | inr behind ↦
      rw behind
        (AllFrom-insert wake (wake t) thr q (ground arith) s.0, sleep_insert-Sorted wake thr q s.1)
]

pub has-sleep_insert :
    (wake : ℕ → ℕ) (a thr : ℕ) (q : List ℕ)
    → has a (sleep_insert wake thr q) ≡ ((a == thr) || has a q)
unfolding sleep_insert
has-sleep_insert wake a thr [] = refl
has-sleep_insert wake a thr (t ∷ q) = ground (arith, has-sleep_insert wake a thr q)

pub Distinct-sleep_insert :
    (wake : ℕ → ℕ) (thr : ℕ) (q : List ℕ)
    → Distinct q
    → thr ∉ q
    → Distinct (sleep_insert wake thr q)
unfolding sleep_insert
Distinct-sleep_insert wake thr [] d o = (refl, tt)
Distinct-sleep_insert wake thr (t ∷ q) d o = elim (Bool-cases (ltb (wake thr) (wake t))) [
  | inl before ↦ rw before (o, d)
  | inr behind ↦ rw behind (
    ground (arith, has-sleep_insert wake t thr q),
    Distinct-sleep_insert wake thr q d.1 (ground arith),
  )
]

-- Every thread of the queue wakes at `n` or earlier.
abbrev pub AllUntil : (ℕ → ℕ) → ℕ → List ℕ → Type 0
AllUntil wake n [] = Unit
AllUntil wake n (t ∷ q) = (wake t ≤ n) × AllUntil wake n q

-- In a sorted sleep queue the new sleeper is put behind all that wake at its time or before and
-- in front of all that wake later; the others keep their order.
sleep_insert-split :
    (wake : ℕ → ℕ) (thr : ℕ) (q : List ℕ)
    → Sorted wake q
    → (before behind : List ℕ) × (q ≡ before ++ behind)
      × (sleep_insert wake thr q ≡ before ++ thr ∷ behind)
      × AllUntil wake (wake thr) before
      × AllFrom wake (wake thr + 1) behind
unfolding sleep_insert
sleep_insert-split wake thr [] s = ([], [], refl, refl, tt, tt)
sleep_insert-split wake thr (t ∷ q) s = elim (Bool-cases (ltb (wake thr) (wake t))) [
  | inl before ↦ (
    [],
    t ∷ q,
    refl,
    rw before refl,
    tt,
    (ground arith, AllFrom-mono wake (wake thr + 1) (wake t) q (ground arith) s.0),
  )
  | inr later ↦
      let (before, behind, e, e', early, late) = sleep_insert-split wake thr q s.1 in
      (t ∷ before, behind, ap (λ r. t ∷ r) e, rw (later, e') refl, (ground arith, early), late)
]
