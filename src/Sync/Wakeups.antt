-- ===== src/Sync/Wakeups.antt =====
-- What signals do to the run queue.
use p.Base.{
  ℕ, ◌≡◌, refl, sym, ◌∙◌, true, some, List, [], ◌∷◌, ◌++◌, has, append_assoc, append-nil, arith,
  if◌then◌else◌,
}
use p.Sched.{Status, Sched, set_status, runq_add_thread}
use p.Sync.Cond.{Cond, cond_broadcast, signal_all, make_runnable}

runnable-signal_all :
    (q : List ℕ) (s : Sched) → (signal_all q s).runnable_threads ≡ s.runnable_threads ++ q
unfolding signal_all make_runnable runq_add_thread set_status
runnable-signal_all [] s = sym (append-nil s.runnable_threads)
runnable-signal_all (t ∷ q) s =
    runnable-signal_all q (make_runnable t s) ∙ append_assoc s.runnable_threads (t ∷ []) q

status-signal_all :
    (q : List ℕ) (s : Sched) (t : ℕ)
    → (signal_all q s).status t ≡ (if has t q then Status.runnable else s.status t)
unfolding signal_all make_runnable runq_add_thread set_status
status-signal_all [] s t = refl
status-signal_all (x ∷ q) s t = ground (arith, status-signal_all q (make_runnable x s) t)

-- On a valid condition variable, cond_broadcast puts all waiting threads, in their order, behind
-- the others in the run queue with status RUNNABLE, leaves no thread waiting, and changes no
-- other status.
cond_broadcast-wakes :
    (cv : Cond) (s : Sched) (t : ℕ)
    → cv.status ≡ true
    → (s' : Sched) × (cond_broadcast cv s ≡ some (record cv { waiting = [] }, s'))
      × (s'.runnable_threads ≡ s.runnable_threads ++ cv.waiting)
      × (s'.status t ≡ (if has t cv.waiting then Status.runnable else s.status t))
unfolding cond_broadcast
cond_broadcast-wakes cv s t valid = (
  signal_all cv.waiting s,
  rw valid refl,
  runnable-signal_all cv.waiting s,
  status-signal_all cv.waiting s t,
)
