-- ===== src/Threads/Calls.antt =====
-- The system call yield, kern/syscalls/thread_syscalls.c, up to its call of context_switch.
use p.Base.{ℕ, ◌-◌, ◌^◌, ◌==◌, if◌then◌else◌}
use p.Sched.{Status}
use p.Threads.Defs.{ThreadMap, Lookup, get_thread_from_id}

-- How the call ends: with an error, in `context_switch` and then 0, or in a read outside the table.
pub data YieldCall : Type 0 where
  err_inval err_failure switched fault : YieldCall

-- The guard on the status of the thread found
unfoldable pub yield_to : Status → YieldCall
yield_to Status.running = YieldCall.switched
yield_to Status.runnable = YieldCall.switched
yield_to Status.waiting = YieldCall.err_failure
yield_to Status.exited = YieldCall.switched
yield_to Status.descheduled = YieldCall.err_failure

unfoldable pub yield_found : (ℕ → Status) → Lookup → YieldCall
yield_found status (Lookup.thread thr) = yield_to (status thr)
yield_found status Lookup.null = YieldCall.err_inval
yield_found status Lookup.outside = YieldCall.fault

unfoldable pub yield_handler : (tid : ℕ) → ThreadMap → YieldCall
yield_handler tid s =
    if tid == 2 ^ 32 - 1
    then YieldCall.switched
    else yield_found s.status (get_thread_from_id tid s)
