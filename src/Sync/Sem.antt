-- ===== src/Sync/Sem.antt =====
-- The functions of kern/sync/sem.c. The semaphore's mutex is held but for the wait, so the stretch of
-- `sem_wait` from one test of the count to the next is one step.
use p.Base.{ℕ, ◌+◌, ◌-◌, ◌%◌, ◌^◌, Bool, true, false, ◌==◌, if◌then◌else◌, Option, none, some}
use p.Sched.{Status, Sched}
use p.Sync.Cond.{Cond, cond_init, cond_destroy, cond_wait, cond_signal}

-- `count` is the bit pattern of an int.
pub record Sem : Type 0 where
  pub count : ℕ
  pub cond_var : Cond
  pub valid : Bool

unfoldable pub sem_init : (count : ℕ) → Sem
unfolding cond_init
sem_init count = record { count = count; cond_var = cond_init; valid = true }

pub data Wait : Type 0 where
  passed blocked : Sem → Sched → Wait

abbrev pub blocked_on : Sem → Option (Cond × Sched) → Option Wait
blocked_on sem none = none
blocked_on sem (some (cv, s)) = some (Wait.blocked (record sem { cond_var = cv }) s)

-- The loop's test and what follows it. A thread that was woken comes back to it.
unfoldable pub sem_test : (idle thr : ℕ) → Sem → Sched → Option Wait
unfolding cond_wait
sem_test idle thr sem s =
    if sem.count == 0
    then blocked_on sem (cond_wait idle thr Status.waiting sem.cond_var s)
    else some (Wait.passed (record sem { count = (sem.count + 2 ^ 32 - 1) % 2 ^ 32 }) s)

unfoldable pub sem_wait : (idle thr : ℕ) → Sem → Sched → Option Wait
unfolding sem_test
sem_wait idle thr sem s = if sem.valid then sem_test idle thr sem s else none

abbrev pub signalled : Sem → Option (Cond × Sched) → Option (Sem × Sched)
signalled sem none = none
signalled sem (some (cv, s)) = some (record sem { cond_var = cv }, s)

unfoldable pub sem_signal : Sem → Sched → Option (Sem × Sched)
unfolding cond_signal
sem_signal sem s =
    if sem.valid
    then signalled (record sem { count = (sem.count + 1) % 2 ^ 32 }) (cond_signal sem.cond_var s)
    else none

abbrev pub destroyed : Sem → Option Cond → Option Sem
destroyed sem none = none
destroyed sem (some cv) = some (record sem { cond_var = cv; valid = false })

unfoldable pub sem_destroy : Sem → Option Sem
unfolding cond_destroy
sem_destroy sem = destroyed sem (cond_destroy sem.cond_var)
