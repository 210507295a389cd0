-- ===== src/Sync/Permits.antt =====
-- Runs of threads on one semaphore.
use p.Base.{
  ℕ, ◌+◌, ◌-◌, ◌%◌, ◌^◌, ◌<◌, ◌≡◌, ◌≢◌, sym, if-true, ◌==◌, Bool-cases, inl, inr, ◌∙◌, Option, none,
  some, arith,
}
use p.Sched.{Status, Sched}
use p.Sync.Cond.{Cond, cond_wait, cond_signal}
use p.Sync.Sem.{
  blocked_on, signalled, Sem, Wait, passed, blocked, sem_init, sem_test, sem_wait, sem_signal,
}

-- The semaphore, the scheduler, and how often a thread passed `sem_wait` and called `sem_signal`.
pub record Run : Type 0 where
  pub sem : Sem
  pub sched : Sched
  pub waited : ℕ
  pub signals : ℕ

pub data Step (idle : ℕ) (r : Run) : Run → Type 0 where
  wait :
      (i : ℕ) {m : Sem} {k : Sched}
      → sem_wait idle i r.sem r.sched ≡ some (passed m k)
      → Step idle r (record r { sem = m; sched = k; waited = r.waited + 1 })
  block :
      (i : ℕ) {m : Sem} {k : Sched}
      → sem_wait idle i r.sem r.sched ≡ some (blocked m k)
      → Step idle r (record r { sem = m; sched = k })
  rewait :
      (i : ℕ) {m : Sem} {k : Sched}
      → sem_test idle i r.sem r.sched ≡ some (passed m k)
      → Step idle r (record r { sem = m; sched = k; waited = r.waited + 1 })
  reblock :
      (i : ℕ) {m : Sem} {k : Sched}
      → sem_test idle i r.sem r.sched ≡ some (blocked m k)
      → Step idle r (record r { sem = m; sched = k })
  signal :
      {m : Sem} {k : Sched}
      → r.sem.count + 1 < 2 ^ 31
      → sem_signal r.sem r.sched ≡ some (m, k)
      → Step idle r (record r { sem = m; sched = k; signals = r.signals + 1 })
  other : (k : Sched) → Step idle r (record r { sched = k })

pub data Reach (idle count : ℕ) : Run → Type 0 where
  start :
      (k : Sched)
      → Reach idle count (record { sem = sem_init count; sched = k; waited = 0; signals = 0 })
  later : {r t : Run} → Reach idle count r → Step idle r t → Reach idle count t

blocked_on-passed :
    (sem : Sem) (o : Option (Cond × Sched)) {m : Sem} {k : Sched}
    → blocked_on sem o ≢ some (passed m k)
blocked_on-passed sem none e = cc
blocked_on-passed sem (some c) e = cc

blocked_on-count :
    (sem : Sem) (o : Option (Cond × Sched)) {m : Sem} {k : Sched}
    → blocked_on sem o ≡ some (blocked m k)
    → m.count ≡ sem.count
blocked_on-count sem none e = absurd (cc)
blocked_on-count sem (some c) e = ground arith

signalled-count :
    (sem : Sem) (o : Option (Cond × Sched)) {m : Sem} {k : Sched}
    → signalled sem o ≡ some (m, k)
    → m.count ≡ sem.count
signalled-count sem none e = absurd (cc)
signalled-count sem (some c) e = ground arith

test-passed :
    (idle i : ℕ) (sem : Sem) (s : Sched) {m : Sem} {k : Sched}
    → sem.count < 2 ^ 31
    → sem_test idle i sem s ≡ some (passed m k)
    → m.count + 1 ≡ sem.count
unfolding sem_test
test-passed idle i sem s {m} {k} small e = elim (Bool-cases (sem.count == 0)) [
  | inl z ↦ absurd (
      blocked_on-passed sem (cond_wait idle i Status.waiting sem.cond_var s) (
        sym (
          if-true (sem.count == 0) (blocked_on sem (cond_wait idle i Status.waiting sem.cond_var s))
            (some (passed (record sem { count = (sem.count + 2 ^ 32 - 1) % 2 ^ 32 }) s)) z)
        ∙ e))
  | inr z ↦ ground arith
]

test-blocked :
    (idle i : ℕ) (sem : Sem) (s : Sched) {m : Sem} {k : Sched}
    → sem_test idle i sem s ≡ some (blocked m k)
    → m.count ≡ sem.count
unfolding sem_test
test-blocked idle i sem s {m} {k} e = elim (Bool-cases (sem.count == 0)) [
  | inl z ↦ blocked_on-count sem (cond_wait idle i Status.waiting sem.cond_var s) (
      sym (
        if-true (sem.count == 0) (blocked_on sem (cond_wait idle i Status.waiting sem.cond_var s))
          (some (passed (record sem { count = (sem.count + 2 ^ 32 - 1) % 2 ^ 32 }) s)) z)
      ∙ e)
  | inr z ↦ ground arith
]

wrapped : (n : ℕ) → n + 1 < 2 ^ 31 → (n + 1) % 2 ^ 32 ≡ n + 1
wrapped n h = omega arith

wait-test :
    (idle i : ℕ) (sem : Sem) (s : Sched) {w : Wait}
    → sem_wait idle i sem s ≡ some w
    → sem_test idle i sem s ≡ some w
unfolding sem_wait
wait-test idle i sem s e = elim (Bool-cases sem.valid) [
  | inl z ↦ sym (if-true sem.valid (sem_test idle i sem s) none z) ∙ e
  | inr z ↦ ground arith
]

signal-count :
    (sem : Sem) (s : Sched) {m : Sem} {k : Sched}
    → sem.count + 1 < 2 ^ 31
    → sem_signal sem s ≡ some (m, k)
    → m.count ≡ sem.count + 1
unfolding sem_signal
signal-count sem s {m} {k} small e = elim (Bool-cases sem.valid) [
  | inl z ↦
      signalled-count (record sem { count = (sem.count + 1) % 2 ^ 32 }) (cond_signal sem.cond_var s)
        (sym (
            if-true sem.valid
              (signalled (record sem { count = (sem.count + 1) % 2 ^ 32 })
                (cond_signal sem.cond_var s))
              none z)
          ∙ e)
      ∙ wrapped sem.count small
  | inr z ↦ ground arith
]

-- The count of the semaphore, and what it adds up to with the calls so far.
abbrev Balanced : ℕ → Run → Type 0
Balanced count r = (r.waited + r.sem.count ≡ count + r.signals) × (r.sem.count < 2 ^ 31)

passed-Balanced :
    (idle i count : ℕ) (r : Run) {m : Sem} {k : Sched}
    → Balanced count r
    → sem_test idle i r.sem r.sched ≡ some (passed m k)
    → Balanced count (record r { sem = m; sched = k; waited = r.waited + 1 })
passed-Balanced idle i count r b e =
    let less = test-passed idle i r.sem r.sched b.1 e in (omega (arith, b.0), omega (arith, b.1))

blocked-Balanced :
    (idle i count : ℕ) (r : Run) {m : Sem} {k : Sched}
    → Balanced count r
    → sem_test idle i r.sem r.sched ≡ some (blocked m k)
    → Balanced count (record r { sem = m; sched = k })
blocked-Balanced idle i count r b e =
    let same = test-blocked idle i r.sem r.sched e in (omega (arith, b.0), omega (arith, b.1))

Step-Balanced :
    {idle : ℕ} (count : ℕ) {r t : Run} → Step idle r t → Balanced count r → Balanced count t
Step-Balanced {idle} count {r} (Step.wait i e) b =
    passed-Balanced idle i count r b (wait-test idle i r.sem r.sched e)
Step-Balanced {idle} count {r} (Step.block i e) b =
    blocked-Balanced idle i count r b (wait-test idle i r.sem r.sched e)
Step-Balanced {idle} count {r} (Step.rewait i e) b = passed-Balanced idle i count r b e
Step-Balanced {idle} count {r} (Step.reblock i e) b = blocked-Balanced idle i count r b e
Step-Balanced count {r} (Step.signal fits e) b =
    let more = signal-count r.sem r.sched fits e in (omega (arith, b.0), omega arith)
Step-Balanced count (Step.other k) b = b

Reach-Balanced : {idle count : ℕ} {r : Run} → count < 2 ^ 31 → Reach idle count r → Balanced count r
unfolding sem_init
Reach-Balanced small (Reach.start k) = (omega arith, small)
Reach-Balanced {count = count} small (Reach.later r st) =
    Step-Balanced count st (Reach-Balanced small r)

-- In every state that calls of sem_wait and sem_signal reach on a semaphore, while its count
-- stays within the positive ints, the calls that passed sem_wait and the present count add up to
-- the first count and the calls of sem_signal.
pub sem_permits :
    {idle count : ℕ} {r : Run}
    → count < 2 ^ 31
    → Reach idle count r
    → r.waited + r.sem.count ≡ count + r.signals
sem_permits small r = (Reach-Balanced small r).0
