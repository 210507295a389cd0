-- ===== src/Libthread/Cond.antt =====
-- The condition variables of user/libthread/cond_var.c. The queue mutex serialises the calls, so the
-- stretch of a function that holds it is one step.
use p.Base.{ℕ, Bool, true, false, ◌==◌, if◌then◌else◌, List, [], ◌∷◌, ◌++◌}

-- `blocked_thread_t`: `reject` is true for RUNNABLE and false for DESCHEDULE.
pub record BlockedThread : Type 0 where
  pub tid : ℕ
  pub reject : Bool

-- `status` is true for COND_VAR_VALID.
pub record Cond : Type 0 where
  pub status : Bool
  pub waiting : List BlockedThread

unfoldable pub cond_init : Cond
cond_init = record { status = true; waiting = [] }

unfoldable pub cond_destroy : Cond → Cond
cond_destroy cv = record cv { status = false }

-- `cond_wait` up to `deschedule`, which lets the thread go on once `reject` is set.
unfoldable pub cond_wait : (thr : ℕ) → Cond → Cond
cond_wait thr cv =
    if cv.status
    then record cv { waiting = cv.waiting ++ (record { tid = thr; reject = false }) ∷ [] }
    else cv

abbrev pub is_runnable : (thr : ℕ) → List BlockedThread → Bool
is_runnable thr [] = false
is_runnable thr (t ∷ ts) = if t.tid == thr then t.reject else is_runnable thr ts

-- The rest of `cond_wait`: the thread's own entry is deleted.
unfoldable pub del_waiting : (thr : ℕ) → List BlockedThread → List BlockedThread
del_waiting thr [] = []
del_waiting thr (t ∷ ts) = if t.tid == thr then ts else t ∷ del_waiting thr ts

unfoldable pub cond_wait_end : (thr : ℕ) → Cond → Cond
unfolding del_waiting
cond_wait_end thr cv = record cv { waiting = del_waiting thr cv.waiting }

unfoldable pub signal_first : List BlockedThread → List BlockedThread
signal_first [] = []
signal_first (t ∷ ts) = record t { reject = true } ∷ ts

-- The thread that is woken stays in the queue until it runs.
unfoldable pub cond_signal : Cond → Cond
unfolding signal_first
cond_signal cv = if cv.status then record cv { waiting = signal_first cv.waiting } else cv

unfoldable pub signal_all : List BlockedThread → List BlockedThread
signal_all [] = []
signal_all (t ∷ ts) = record t { reject = true } ∷ signal_all ts

unfoldable pub cond_broadcast : Cond → Cond
unfolding signal_all
cond_broadcast cv = if cv.status then record cv { waiting = signal_all cv.waiting } else cv
