-- ===== src/Mutex/Tests.antt =====
-- Runs of the mutex functions, and the theorems about them at concrete states.
use p.Base.{update, ℕ, [], ◌∷◌, true, false, some, ◌≡◌, ◌⊎◌, refl, arith, if◌then◌else◌, ◌==◌}
use p.Sched.{set_status, context_switch, Status, Sched}
use p.Sched.Invariant.{IsQueued}
use p.Mutex.Defs.{
  Value, Mutex, Kernel, mutex_unlock, mutex_init, mutex_lock, disable_interrupts_mutex,
  restore_interrupts,
}
use p.Mutex.Threads.{Pc, System, Reach, start, later, lock, wait}
use p.Mutex.Exclusion.{mutual_exclusion, Woken, no_lost_wakeup}

-- Thread 1 is idle, 2 runs, 3 is runnable, 4 waits for a mutex.
abbrev sched : Sched
sched = record {
  status =
      λ t. if t == 2 then Status.running else if t == 3 then Status.runnable else Status.waiting;
  wake_time = λ t. 0;
  runnable_threads = 3 ∷ [];
  sleeping_threads = some [];
  curr = some 2;
  ticks = 0;
}

abbrev kernel : Kernel
kernel = record { sched = sched; enable = true; interrupts = true }

sched-IsQueued : IsQueued 1 sched
sched-IsQueued = record {
  runq_once = ground arith;
  sleep_once = tt;
  sorted = tt;
  runq_status = λ t i. ground arith;
  sleep_status = λ t i. cc;
  idle_out = (refl, refl);
  idle_runs = λ e. ground arith;
}

abbrev held : Mutex
held = record { value = Value.locked; waiting = 4 ∷ [] }

-- Thread 2 has taken the mutex, and thread 3 waits for it.
abbrev contended : System
contended = record {
  mutex = record { value = Value.locked; waiting = 3 ∷ [] };
  kernel = record kernel { sched = context_switch 1 (set_status 3 Status.waiting sched) };
  pc = update (update (λ _. Pc.outside) 2 Pc.inside) 3 Pc.queued;
}

contended-Reach : Reach 1 contended
unfolding mutex_init mutex_lock disable_interrupts_mutex restore_interrupts
contended-Reach = later (later (start kernel) (lock 2 refl refl)) (wait 3 refl refl)

mutual_exclusion_example : ◌≡◌ {A = ℕ} 2 2
mutual_exclusion_example = mutual_exclusion 2 2 contended-Reach refl refl

no_lost_wakeup_example :
    ((j : ℕ) × ((contended.pc j ≡ Pc.inside) ⊎ (contended.pc j ≡ Pc.testing)))
    × ((m : Mutex) × (k : Kernel) × (t : ℕ) × (mutex_unlock contended.mutex contended.kernel
          ≡ some (m, k))
        × Woken contended m k t)
no_lost_wakeup_example = no_lost_wakeup 3 contended-Reach refl

abbrev quiet : Kernel
quiet = record kernel { interrupts = false }
