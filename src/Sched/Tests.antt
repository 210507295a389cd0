-- ===== src/Sched/Tests.antt =====
-- Runs of the scheduler, and the theorems about it at concrete states. Thread 1 is the idle thread.
use p.Base.{◌==◌, ◌||◌, if◌then◌else◌, ℕ, ◌+◌, ◌≡◌, refl, List, ◌∷◌, [], arith, none, some, ◌∈◌}
use p.Sched.Defs.{
  Status, Sched, runq_add_thread, runq_get_head, take_head, context_switch, get_sleeping_thread,
  Sleep, sleep_begin, sleep_end,
}
use p.ListHead.{init_head}
use p.Sched.RunQueue.{answers, add, take, answers-init_head}
use p.Sched.SleepQueue.{Sorted}
use p.Sched.Invariant.{IsQueued, HasRunning, context_switch-HasRunning}
use p.Sched.Sleeping.{schedule_sleep-IsQueued, sleep_begin-race}
use p.Sched.Fairness.{switches, switches-runs}

-- Thread 2 runs, 3 and 4 are runnable, 5 and 6 sleep until ticks 8 and 20.
abbrev statuses : ℕ → Status
statuses t =
    if t == 2
    then Status.running
    else if (t == 3) || (t == 4)
    then Status.runnable
    else Status.waiting

abbrev busy : Sched
busy = record {
  status = statuses;
  wake_time = λ t. if t == 5 then 8 else 20;
  runnable_threads = 3 ∷ 4 ∷ [];
  sleeping_threads = some (5 ∷ 6 ∷ []);
  curr = some 2;
  ticks = 8;
}

busy-IsQueued : IsQueued 1 busy
busy-IsQueued = record {
  runq_once = ground arith;
  sleep_once = ground arith;
  sorted = omega arith;
  runq_status = λ t i. ground arith;
  sleep_status = λ t i. ground arith;
  idle_out = (refl, refl);
  idle_runs = λ e. ground arith;
}

-- One tick later thread 5 is due, and thread 2 goes behind 3 and 4.
switch_run :
    ((context_switch 1 busy).curr ≡ some 3)
    × ((context_switch 1 (record busy { ticks = 9 })).curr ≡ some 5)
    × ((context_switch 1 (record busy { ticks = 9 })).runnable_threads ≡ 3 ∷ 4 ∷ 2 ∷ [])
unfolding context_switch
switch_run = (refl, refl, refl)

context_switch-HasRunning_example :
    IsQueued 1 (context_switch 1 busy) × HasRunning (context_switch 1 busy)
context_switch-HasRunning_example = context_switch-HasRunning 1 busy busy-IsQueued

switches-runs_example : (switches 2 1 busy).curr ≡ some 4
unfolding get_sleeping_thread
switches-runs_example = switches-runs (3 ∷ []) [] 1 busy 4 refl refl

schedule_sleep-IsQueued_example :
    (queue : List ℕ) × (s' : Sched) × (sleep_begin 5 2 busy ≡ Sleep.walked 2 queue s')
    × (s'.wake_time 2 ≡ 8 + 5)
    × (2 ∈ queue)
    × Sorted s'.wake_time queue
    × IsQueued 1 (sleep_end 1 2 queue s')
    × HasRunning (sleep_end 1 2 queue s')
schedule_sleep-IsQueued_example =
    schedule_sleep-IsQueued 5 2 busy-IsQueued refl (omega arith) refl (omega arith)

sleep_begin-race_example :
    (queue : List ℕ) × (s' : Sched) × (sleep_begin 5 2 busy ≡ Sleep.walked 2 queue s')
    × (sleep_begin 7 3 s' ≡ Sleep.null_list)
sleep_begin-race_example =
    sleep_begin-race 5 2 busy-IsQueued refl (omega arith) refl (omega arith) 7 3 (omega arith)

answers-init_head_example :
    answers 4 64
      (take ∷ add 96 ∷ add 128 ∷ take ∷ take ∷ [])
      (init_head 64 (record { next = λ _. 0; prev = λ _. 0 }))
    ≡ none ∷ some 96 ∷ some 128 ∷ []
unfolding runq_add_thread runq_get_head take_head
answers-init_head_example =
    answers-init_head 4 64 (take ∷ add 96 ∷ add 128 ∷ take ∷ take ∷ []) busy
      (record { next = λ _. 0; prev = λ _. 0 }) (omega arith, refl, (omega arith, refl, tt))
