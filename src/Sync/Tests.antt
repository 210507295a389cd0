-- ===== src/Sync/Tests.antt =====
-- A semaphore of one permit, and a condition variable on which two threads wait.
use p.Base.{◌+◌, ◌≡◌, refl, ◌==◌, if◌then◌else◌, [], ◌∷◌, true, false, none, some, arith}
use p.Sched.{Status, Sched}
use p.Sync.Cond.{Cond, cond_destroy}
use p.Sync.Sem.{sem_init, sem_test, sem_wait}
use p.Sync.Permits.{Run, Step, Reach, sem_permits}

-- Thread 2 runs; threads 4 and 5 wait.
abbrev sched : Sched
sched = record {
  status = λ t. if t == 2 then Status.running else Status.waiting;
  wake_time = λ t. 0;
  runnable_threads = 3 ∷ [];
  sleeping_threads = some [];
  curr = some 2;
  ticks = 0;
}

abbrev two_waiting : Cond
two_waiting = record { status = true; waiting = 4 ∷ 5 ∷ [] }

abbrev first_passed : Run
first_passed = record {
  sem = record (sem_init 1) { count = 0 };
  sched = sched;
  waited = 1;
  signals = 0;
}

first_passed-Reach : Reach 1 1 first_passed
unfolding sem_init sem_wait sem_test
first_passed-Reach = Reach.later (Reach.start sched) (Step.wait 2 refl)

sem_permits_example : first_passed.waited + first_passed.sem.count ≡ 1 + first_passed.signals
sem_permits_example = sem_permits (omega arith) first_passed-Reach

-- A second destruction fails its assertion.
destroyed_twice : cond_destroy (record two_waiting { status = false }) ≡ none
unfolding cond_destroy
destroyed_twice = refl
