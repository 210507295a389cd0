-- ===== src/Sync/Cond.antt =====
-- The functions of kern/sync/cond_var.c, on the scheduler. A failed `thread_assert` is `none`. The
-- mutex of the queue is held within each function, and the caller's mutex is not followed: `cond_wait`
-- is its stretch up to the context switch.
use p.Base.{ℕ, Bool, true, false, if◌then◌else◌, Option, none, some, List, [], ◌∷◌, ◌++◌}
use p.Sched.{Status, Sched, set_status, runq_add_thread, context_switch}

-- `status` is true for COND_VAR_VALID.
pub record Cond : Type 0 where
  pub status : Bool
  pub waiting : List ℕ

unfoldable pub cond_init : Cond
cond_init = record { status = true; waiting = [] }

unfoldable pub cond_destroy : Cond → Option Cond
cond_destroy cv = if cv.status then some (record cv { status = false }) else none

unfoldable pub cond_wait : (idle thr : ℕ) → Status → Cond → Sched → Option (Cond × Sched)
unfolding context_switch set_status
cond_wait idle thr st cv s =
    if cv.status
    then some
        (record cv { waiting = cv.waiting ++ thr ∷ [] }, context_switch idle (set_status thr st s))
    else none

unfoldable pub make_runnable : ℕ → Sched → Sched
unfolding runq_add_thread set_status
make_runnable thr s = runq_add_thread thr (set_status thr Status.runnable s)

unfoldable pub signal_first : List ℕ → Sched → List ℕ × Sched
unfolding make_runnable
signal_first [] s = ([], s)
signal_first (thr ∷ rest) s = (rest, make_runnable thr s)

unfoldable pub cond_signal : Cond → Sched → Option (Cond × Sched)
unfolding signal_first
cond_signal cv s =
    if cv.status
    then (let (rest, s') = signal_first cv.waiting s in some (record cv { waiting = rest }, s'))
    else none

unfoldable pub signal_all : List ℕ → Sched → Sched
unfolding make_runnable
signal_all [] s = s
signal_all (thr ∷ rest) s = signal_all rest (make_runnable thr s)

unfoldable pub cond_broadcast : Cond → Sched → Option (Cond × Sched)
unfolding signal_all
cond_broadcast cv s =
    if cv.status then some (record cv { waiting = [] }, signal_all cv.waiting s) else none
