-- ===== src/Mutex/Queues.antt =====
-- The mutex functions and the scheduler's queues, and the interrupt flag.
use p.Base.{
  ap, sym, subst, ℕ, List, [], ◌∷◌, ◌++◌, Bool, true, false, some, ◌≡◌, ◌≢◌, refl, arith, ◌∉◌,
}
use p.Sched.{Status, set_status, runq_add_thread, context_switch}
use p.Sched.Invariant.{
  IsQueued, HasRunning, sleepers, context_switch-HasRunning, waiting-IsQueued, wake-IsQueued,
}
use p.Mutex.Defs.{
  Value, Mutex, Kernel, Round, mutex_lock, mutex_lock_int_save, lock_round, mutex_unlock, release,
  restore_interrupts, mutex_unlock_int_save, disable_interrupts_mutex,
}

-- From a state whose queues are in order, a running thread other than the idle one that finds the
-- mutex locked is put behind the waiting threads, the queues stay in order, and another running
-- thread has the processor.
mutex_lock-blocked :
    (idle thr : ℕ) (m : Mutex) (k : Kernel)
    → IsQueued idle k.sched
    → k.sched.status thr ≡ Status.running
    → thr ≢ idle
    → m.value ≡ Value.locked
    → (k' : Kernel) × (mutex_lock idle thr m k
        ≡ some (Round.blocked (record m { waiting = m.waiting ++ thr ∷ [] }) k'))
      × IsQueued idle k'.sched
      × HasRunning k'.sched
unfolding mutex_lock disable_interrupts_mutex
mutex_lock-blocked idle thr m k v r ne e =
    let after = context_switch-HasRunning idle _ (waiting-IsQueued thr Status.waiting v r ne) in
    (
      record k {
        sched = context_switch idle (set_status thr Status.waiting k.sched);
        interrupts = true;
      },
      ground arith,
      after.0,
      after.1,
    )

release-wakes :
    (b : Bool) (m : Mutex) (k : Kernel) (t : ℕ) (rest : List ℕ)
    → m.waiting ≡ t ∷ rest
    → ((release b m k).0 ≡ record { value = Value.unlocked; waiting = rest })
      × ((release b m k).1.sched ≡ runq_add_thread t (set_status t Status.runnable k.sched))
unfolding release restore_interrupts disable_interrupts_mutex
release-wakes b m k t rest e = ground arith

-- From a state whose queues are in order, releasing a locked mutex with waiting threads makes the
-- first of them, which has status WAITING and does not sleep, runnable behind the others in the
-- run queue; the rest keep waiting, and the queues stay in order.
mutex_unlock-wakes :
    (idle : ℕ) (m : Mutex) (k : Kernel) (t : ℕ) (rest : List ℕ)
    → IsQueued idle k.sched
    → m.value ≡ Value.locked
    → m.waiting ≡ t ∷ rest
    → k.sched.status t ≡ Status.waiting
    → t ∉ sleepers k.sched
    → t ≢ idle
    → (k' : Kernel) × (mutex_unlock m k
        ≡ some (record { value = Value.unlocked; waiting = rest }, k'))
      × (k'.sched.runnable_threads ≡ k.sched.runnable_threads ++ t ∷ [])
      × IsQueued idle k'.sched
unfolding mutex_unlock runq_add_thread set_status
mutex_unlock-wakes idle m k t rest v e q w o ne =
    let woken = wake-IsQueued t v (ground arith) o ne in
    let (left, woke) = release-wakes true m k t rest q in
    (
      (release true m k).1,
      rw (e, ← left),
      ap (λ u. u.runnable_threads) woke,
      subst (IsQueued idle) (sym woke) woken,
    )

disabled :
    (k : Kernel) → k.enable ≡ true → disable_interrupts_mutex k ≡ record k { interrupts = false }
unfolding disable_interrupts_mutex
disabled k on = ground arith

restored :
    (b : Bool) (k : Kernel)
    → k.enable ≡ true
    → k.interrupts ≡ false
    → (restore_interrupts b k).interrupts ≡ b
unfolding restore_interrupts
restored true k on off = ground arith
restored false k on off = off

lock_round-interrupts :
    (b : Bool) (idle thr : ℕ) (m : Mutex) (k : Kernel) {n : Mutex} (k' : Kernel)
    → k.enable ≡ true
    → lock_round b idle thr m k ≡ Round.acquired n k'
    → k'.interrupts ≡ b
unfolding lock_round
lock_round-interrupts b idle thr m k k' on e =
    let r = restored b (record k { interrupts = false }) on refl in ground (arith, disabled k on)

release-interrupts :
    (b : Bool) (m : Mutex) (k : Kernel) → k.enable ≡ true → (release b m k).1.interrupts ≡ b
unfolding release
release-interrupts b m k on = rw (disabled k on) (restored b _ on refl)

-- With the mutex library enabled, a mutex_lock that acquires and a mutex_unlock leave interrupts
-- on, and the _int_save functions leave them as they were.
int_save-interrupts :
    (idle thr : ℕ) (m m' : Mutex) (k a b : Kernel) {n n' : Mutex} (c d : Mutex × Kernel)
    → k.enable ≡ true
    → mutex_lock idle thr m k ≡ some (Round.acquired n a)
    → mutex_lock_int_save idle thr m k ≡ some (Round.acquired n' b)
    → mutex_unlock m' k ≡ some c
    → mutex_unlock_int_save m' k ≡ some d
    → (a.interrupts ≡ true)
      × (b.interrupts ≡ k.interrupts)
      × (c.1.interrupts ≡ true)
      × (d.1.interrupts ≡ k.interrupts)
unfolding mutex_lock mutex_lock_int_save mutex_unlock mutex_unlock_int_save
int_save-interrupts idle thr m m' k a b {n} {n'} c d on e f g h =
    let unlocked = release-interrupts true m' k on in
    let saved = release-interrupts k.interrupts m' k on in
    (
      lock_round-interrupts true idle thr m k {n = n} a on (ground arith),
      lock_round-interrupts k.interrupts idle thr m k {n = n'} b on (ground arith),
      ground arith,
      ground arith,
    )
