-- ===== src/Sched/Fairness.antt =====
-- Round robin: a runnable thread runs after as many context switches as stand before it.
use p.Base.{
  ◌∙◌, not, ◌&&◌, append-nil, ℕ, zero, suc, ◌≡◌, refl, Option, none, some, List, [], ◌∷◌, ◌++◌,
  arith, ◌==◌, if◌then◌else◌, length, append_assoc,
}
use p.Sched.Defs.{
  Status, is_running, Sched, wake_any, sleeper_or_head, get_sleeping_thread, requeue,
  context_switch,
}

-- `n` context switches one after the other, no clock tick among them.
pub switches : ℕ → (idle : ℕ) → Sched → Sched
switches zero idle s = s
switches (suc n) idle s = switches n idle (context_switch idle s)

-- No sleeper is due.
abbrev pub NoneDue : Sched → Type 0
NoneDue s = (get_sleeping_thread s).0 ≡ none

wake_any-none :
    (s : Sched) (w : Option (List ℕ)) → (wake_any w s).0 ≡ none → wake_any w s ≡ (none, s)
unfolding wake_any
wake_any-none s none e = refl
wake_any-none s (some []) e = refl
wake_any-none s (some (x ∷ w)) e = ground arith

wake_any-same :
    (s u : Sched) (w : Option (List ℕ))
    → u.wake_time ≡ s.wake_time
    → u.ticks ≡ s.ticks
    → (wake_any w s).0 ≡ none
    → (wake_any w u).0 ≡ none
unfolding wake_any
wake_any-same s u none e e' h = refl
wake_any-same s u (some []) e e' h = refl
wake_any-same s u (some (x ∷ w)) e e' h = rw (e, e') (ground arith)

-- What is queued behind the others when `c` gives up the processor.
abbrev given_up : (idle : ℕ) → Option ℕ → (ℕ → Status) → List ℕ
given_up idle none st = []
given_up idle (some c) st = if is_running (st c) && not (c == idle) then c ∷ [] else []

requeue-queue :
    (idle : ℕ) (c : Option ℕ) (s : Sched)
    → ((requeue idle c s).runnable_threads ≡ s.runnable_threads ++ given_up idle c s.status)
      × ((requeue idle c s).sleeping_threads ≡ s.sleeping_threads)
      × ((requeue idle c s).wake_time ≡ s.wake_time)
      × ((requeue idle c s).ticks ≡ s.ticks)
unfolding requeue
requeue-queue idle none s = (rw append-nil, refl, refl, refl)
requeue-queue idle (some c) s = ground (arith, append-nil s.runnable_threads)

-- One switch with no sleeper due: the head of the run queue runs, the others move up.
context_switch-head :
    (idle : ℕ) (s : Sched) (t : ℕ) (q : List ℕ)
    → NoneDue s
    → s.runnable_threads ≡ t ∷ q
    → ((context_switch idle s).curr ≡ some t)
      × ((context_switch idle s).runnable_threads ≡ q ++ given_up idle s.curr s.status)
      × NoneDue (context_switch idle s)
unfolding context_switch get_sleeping_thread sleeper_or_head
context_switch-head idle s t q quiet e =
    let s' = record s { runnable_threads = q } in
    let after = requeue-queue idle s.curr s' in
    rw (wake_any-none s s.sleeping_threads quiet, e)
      (refl, after.0, rw after.1 (wake_any-same s _ s.sleeping_threads after.2 after.3 quiet))

-- While no sleeper is due and the clock stands still, a thread with n runnable threads before it
-- in the run queue has the processor after n + 1 context switches.
pub switches-runs :
    (xs ys : List ℕ) (idle : ℕ) (s : Sched) (t : ℕ)
    → NoneDue s
    → s.runnable_threads ≡ xs ++ t ∷ ys
    → (switches (suc (length xs)) idle s).curr ≡ some t
unfolding switches
switches-runs [] ys idle s t quiet e = (context_switch-head idle s t ys quiet e).0
switches-runs (x ∷ xs) ys idle s t quiet e =
    let (ran, moved, still) = context_switch-head idle s x (xs ++ t ∷ ys) quiet e in
    switches-runs xs (ys ++ given_up idle s.curr s.status) idle (context_switch idle s) t still
      (moved ∙ append_assoc xs (t ∷ ys) (given_up idle s.curr s.status))
