-- ===== src/Threads/Deschedule.antt =====
-- deschedule and make_runnable of kern/syscalls/thread_syscalls.c. The deschedule mutex of a thread
-- is held but in the wait, so a step of deschedule is the stretch up to its wait.
use p.Base.{ℕ, ◌^◌, Bool, true, false, ◌==◌, leb, if◌then◌else◌, Option, none, some, update}
use p.Vm.{Vm, is_pointer_valid}
use p.Exec.{read_word}
use p.Sched.{Status, Sched}
use p.Sync.Cond.{Cond, cond_wait, cond_signal}
use p.Threads.Defs.{ThreadMap, Lookup, get_thread_from_id}

-- The threads, the condition variable `deschedule_cond_var` of each, and the scheduler.
pub record ThreadState : Type 0 where
  pub map : ThreadMap
  pub deschedule_cond_var : ℕ → Cond
  pub sched : Sched

-- ERR_INVAL; or 0, or a wait, with the state after it.
pub data Ended : Type 0 where
  err_inval : Ended
  returned waits : ThreadState → Ended

-- After a call on the condition variable of a thread, which may fail its assertion.
abbrev with_cond :
    (ThreadState → Ended) → (thr : ℕ) → ThreadState → Option (Cond × Sched) → Option Ended
with_cond end thr s none = none
with_cond end thr s (some (cv, q)) =
    some (end (record s { deschedule_cond_var = update s.deschedule_cond_var thr cv; sched = q }))

-- For the answer of `is_pointer_valid` and the word at `reject`.
unfoldable pub deschedule_checked :
    (idle curr : ℕ) → (valid : Option Bool) → (word : ℕ) → ThreadState → Option Ended
unfolding cond_wait
deschedule_checked idle curr none word s = none
deschedule_checked idle curr (some false) word s = some Ended.err_inval
deschedule_checked idle curr (some true) word s =
    if word == 0
    then with_cond Ended.waits curr s
        (cond_wait idle curr Status.descheduled (s.deschedule_cond_var curr) s.sched)
    else some (Ended.returned s)

unfoldable pub deschedule_handler :
    (fuel idle curr : ℕ) → Vm → (reject : ℕ) → ThreadState → Option Ended
unfolding deschedule_checked
deschedule_handler fuel idle curr vm reject s =
    deschedule_checked idle curr (is_pointer_valid fuel reject 4 vm) (read_word vm reject) s

abbrev is_descheduled : Status → Bool
is_descheduled Status.descheduled = true
is_descheduled Status.running = false
is_descheduled Status.runnable = false
is_descheduled Status.waiting = false
is_descheduled Status.exited = false

-- A lookup outside the table does not end.
unfoldable pub make_runnable_found : Lookup → ThreadState → Option Ended
unfolding cond_signal
make_runnable_found Lookup.null s = some Ended.err_inval
make_runnable_found Lookup.outside s = none
make_runnable_found (Lookup.thread thr) s =
    if is_descheduled (s.sched.status thr)
    then with_cond Ended.returned thr s (cond_signal (s.deschedule_cond_var thr) s.sched)
    else some Ended.err_inval

-- `tid` is the bit pattern of an int.
unfoldable pub make_runnable_handler : (tid : ℕ) → ThreadState → Option Ended
unfolding make_runnable_found
make_runnable_handler tid s =
    if leb (2 ^ 31) tid
    then some Ended.err_inval
    else make_runnable_found (get_thread_from_id tid s.map) s
