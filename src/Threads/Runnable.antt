-- ===== src/Threads/Runnable.antt =====
-- A thread that deschedules itself, and the one that makes it runnable.
use p.Base.{
  ℕ, ◌^◌, ◌<◌, ◌≡◌, ◌≢◌, ◌∉◌, ◌++◌, refl, ◌∙◌, sym, true, false, leb, some, [], ◌∷◌, update, arith,
}
use p.Vm.{Vm, is_pointer_valid}
use p.Exec.{read_word}
use p.Sched.{Status, Sched, set_status, context_switch, runq_add_thread}
use p.Sched.Invariant.{IsQueued, HasRunning, waiting-IsQueued, context_switch-HasRunning}
use p.Sched.Blocked.{Blocked, context_switch-Blocked}
use p.Sync.Cond.{Cond, cond_wait, cond_signal, signal_first, make_runnable}
use p.Threads.Defs.{Lookup, get_thread_from_id}
use p.Threads.Deschedule.{
  ThreadState, Ended, deschedule_handler, deschedule_checked, make_runnable_handler,
  make_runnable_found,
}

-- The condition variable of a thread while it is descheduled, and while it is not.
abbrev pub asleep : (thr : ℕ) → Cond
asleep thr = record { status = true; waiting = thr ∷ [] }

abbrev pub awake : Cond
awake = record { status = true; waiting = [] }

written : {A : Type 0} (f : ℕ → A) (i : ℕ) (a : A) → update f i a i ≡ a
written f i a = ground arith

-- What deschedule leaves of the thread that called it.
record Slept (idle thr : ℕ) (s : ThreadState) : Type 0 where
  on_cond : s.deschedule_cond_var thr ≡ asleep thr
  blocked : Blocked thr Status.descheduled s.sched
  has_running : HasRunning s.sched

deschedule-Slept :
    (fuel idle curr : ℕ) (vm : Vm) (reject : ℕ) (s : ThreadState)
    → is_pointer_valid fuel reject 4 vm ≡ some true
    → read_word vm reject ≡ 0
    → s.deschedule_cond_var curr ≡ awake
    → IsQueued idle s.sched
    → s.sched.status curr ≡ Status.running
    → curr ≢ idle
    → (s' : ThreadState) × (deschedule_handler fuel idle curr vm reject s ≡ some (Ended.waits s'))
      × Slept idle curr s'
unfolding deschedule_handler deschedule_checked cond_wait set_status
deschedule-Slept fuel idle curr vm reject s valid zero cv v runs apart =
    let marked = waiting-IsQueued curr Status.descheduled v runs apart in
    (
      record s {
        deschedule_cond_var = update s.deschedule_cond_var curr (asleep curr);
        sched = context_switch idle (set_status curr Status.descheduled s.sched);
      },
      rw (deschedule_handler, valid, zero, deschedule_checked, cond_wait, cv) refl,
      record {
        on_cond = written s.deschedule_cond_var curr (asleep curr);
        blocked =
            context_switch-Blocked curr Status.descheduled idle
              (set_status curr Status.descheduled s.sched) refl (λ e. apart (sym e))
              (record {
                has_status = written s.sched.status curr Status.descheduled;
                not_runnable = ground (arith, v.runq_status curr);
                not_sleeping = ground (arith, v.sleep_status curr);
              });
        has_running =
            (context_switch-HasRunning idle (set_status curr Status.descheduled s.sched) marked).1;
      },
    )

make_runnable-awake :
    (thr : ℕ) (s : ThreadState)
    → s.deschedule_cond_var thr ≡ asleep thr
    → s.sched.status thr ≡ Status.descheduled
    → make_runnable_found (Lookup.thread thr) s
      ≡ some (
          Ended.returned (record s {
            deschedule_cond_var = update s.deschedule_cond_var thr awake;
            sched = make_runnable thr s.sched;
          }))
unfolding make_runnable_found cond_signal signal_first
make_runnable-awake thr s cv status = rw (make_runnable_found, status, cond_signal, cv) refl

runnable-status : (thr : ℕ) (s : Sched) → (make_runnable thr s).status thr ≡ Status.runnable
unfolding make_runnable runq_add_thread set_status
runnable-status thr s = written s.status thr Status.runnable

runnable-queue :
    (thr : ℕ) (s : Sched) → (make_runnable thr s).runnable_threads ≡ s.runnable_threads ++ thr ∷ []
unfolding make_runnable runq_add_thread set_status
runnable-queue thr s = refl

-- When the scheduler's queues are in order, reject is a valid pointer to 0, and nobody waits on
-- the valid condition variable of the running thread, which is not the idle one, deschedule puts
-- the thread, with status DESCHEDULED, to wait on it, in no run queue, and another running thread
-- has the processor. In any later state in which the thread still has that status and is alone on
-- the condition variable, and has an id below 2^31 that the table leads to it, make_runnable of
-- that id returns 0, empties the condition variable again, and puts the thread, with status
-- RUNNABLE, behind the others in the run queue; and make_runnable at once after that returns
-- ERR_INVAL.
pub make_runnable-deschedule :
    (fuel idle curr tid : ℕ) (vm : Vm) (reject : ℕ) (s later : ThreadState)
    → is_pointer_valid fuel reject 4 vm ≡ some true
    → read_word vm reject ≡ 0
    → s.deschedule_cond_var curr ≡ awake
    → IsQueued idle s.sched
    → s.sched.status curr ≡ Status.running
    → curr ≢ idle
    → later.deschedule_cond_var curr ≡ asleep curr
    → later.sched.status curr ≡ Status.descheduled
    → tid < 2 ^ 31
    → get_thread_from_id tid later.map ≡ Lookup.thread curr
    → (waiting runnable : ThreadState) × (deschedule_handler fuel idle curr vm reject s
        ≡ some (Ended.waits waiting))
      × (waiting.deschedule_cond_var curr ≡ later.deschedule_cond_var curr)
      × (waiting.sched.status curr ≡ later.sched.status curr)
      × (curr ∉ waiting.sched.runnable_threads)
      × HasRunning waiting.sched
      × (make_runnable_handler tid later ≡ some (Ended.returned runnable))
      × (runnable.deschedule_cond_var curr ≡ s.deschedule_cond_var curr)
      × (runnable.sched.status curr ≡ Status.runnable)
      × (runnable.sched.runnable_threads ≡ later.sched.runnable_threads ++ curr ∷ [])
      × (make_runnable_handler tid runnable ≡ some Ended.err_inval)
unfolding make_runnable_handler make_runnable_found
make_runnable-deschedule fuel idle curr tid vm reject s later valid zero cv v runs apart slept
      status int found =
    let (waiting, waits, at) =
      deschedule-Slept fuel idle curr vm reject s valid zero cv v runs apart in
    let positive : leb (2 ^ 31) tid ≡ false = ground arith in
    let now_runnable = runnable-status curr later.sched in
    (
      waiting,
      record later {
        deschedule_cond_var = update later.deschedule_cond_var curr awake;
        sched = make_runnable curr later.sched;
      },
      waits,
      at.on_cond ∙ sym slept,
      at.blocked.has_status ∙ sym status,
      at.blocked.not_runnable,
      at.has_running,
      rw (make_runnable_handler, positive, found) (make_runnable-awake curr later slept status),
      written later.deschedule_cond_var curr awake ∙ sym cv,
      now_runnable,
      runnable-queue curr later.sched,
      rw (make_runnable_handler, positive, found, make_runnable_found, now_runnable) refl,
    )
