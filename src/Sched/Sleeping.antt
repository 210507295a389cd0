-- ===== src/Sched/Sleeping.antt =====
-- `schedule_sleep` and the wake-up of sleepers.
use p.Base.{
  subst, ℕ, ◌+◌, ◌<◌, ◌^◌, ◌≡◌, ◌≢◌, Option, none, some, List, [], ◌∷◌, arith, ◌∉◌, ◌∈◌, has, ltb,
  Bool-cases, inl, inr, update,
}
use p.Sched.Defs.{
  Status, Sched, set_status, wake_any, get_sleeping_thread, sleep_insert, Sleep, sleep_begin,
  sleep_end,
}
use p.Sched.SleepQueue.{
  Sorted, AllFrom, sleep_insert-Sorted, Distinct-sleep_insert, has-sleep_insert,
}
use p.Sched.Invariant.{IsQueued, HasRunning, sleepers, context_switch-HasRunning}

AllFrom-update :
    (wake : ℕ → ℕ) (thr n m : ℕ) (q : List ℕ)
    → thr ∉ q
    → AllFrom wake m q
    → AllFrom (update wake thr n) m q
AllFrom-update wake thr n m [] o a = tt
AllFrom-update wake thr n m (t ∷ q) o a =
    (ground (arith, a.0), AllFrom-update wake thr n m q (ground arith) a.1)

Sorted-update :
    (wake : ℕ → ℕ) (thr n : ℕ) (q : List ℕ) → thr ∉ q → Sorted wake q → Sorted (update wake thr n) q
Sorted-update wake thr n [] o s = tt
Sorted-update wake thr n (t ∷ q) o s = (
  let same : update wake thr n t ≡ wake t = ground arith in
      rw same (AllFrom-update wake thr n (wake t) q (ground arith) s.0),
  Sorted-update wake thr n q (ground arith) s.1,
)

module _ {idle : ℕ} {s : Sched} {q : List ℕ} (ticks thr : ℕ) (v : IsQueued idle s)
    (runs : s.status thr ≡ Status.running) (ne : thr ≢ idle) (list : s.sleeping_threads ≡ some q)
    (fits : s.ticks + ticks < 2 ^ 31) where
  -- The state that `sleep_begin` leaves, and the new list, which is still local.
  walked_state : Sched
  walked_state = record s {
    wake_time = update s.wake_time thr (s.ticks + ticks);
    sleeping_threads = none;
  }

  new_queue : List ℕ
  unfolding walked_state
  new_queue = sleep_insert walked_state.wake_time thr q

  not_asleep : thr ∉ q
  not_asleep = elim (Bool-cases (has thr q)) [
    | inl i ↦ absurd (let w = v.sleep_status thr (rw list i) in ground arith)
    | inr o ↦ o
  ]

  asleep-IsQueued : IsQueued idle (record walked_state {
    sleeping_threads = some new_queue;
    status = update s.status thr Status.waiting;
  })
  unfolding new_queue
  asleep-IsQueued = record {
    runq_once = v.runq_once;
    sleep_once = Distinct-sleep_insert _ thr q (rw list at v.sleep_once) not_asleep;
    sorted = sleep_insert-Sorted _ thr q (Sorted-update _ thr _ q not_asleep (rw list at v.sorted));
    runq_status = λ t i. ground (arith, v.runq_status t);
    sleep_status = λ t i. ground (
      arith,
      v.sleep_status t,
      has-sleep_insert (update s.wake_time thr (s.ticks + ticks)) t thr q,
    );
    idle_out =
        ground (
          arith,
          v.idle_out,
          has-sleep_insert (update s.wake_time thr (s.ticks + ticks)) idle thr q,
        );
    idle_runs = λ e. ground (arith, v.idle_runs e);
  }

  -- From a state whose queues are in order and whose sleep queue is not taken, a running thread
  -- other than the idle one that goes to sleep, to wake before tick 2^31, is queued with its wake
  -- time, the sleep queue is sorted, the queues stay in order, and a running thread has the
  -- processor.
  pub schedule_sleep-IsQueued :
      (queue : List ℕ) × (s' : Sched) × (sleep_begin ticks thr s ≡ Sleep.walked thr queue s')
      × (s'.wake_time thr ≡ s.ticks + ticks)
      × (thr ∈ queue)
      × Sorted s'.wake_time queue
      × IsQueued idle (sleep_end idle thr queue s')
      × HasRunning (sleep_end idle thr queue s')
  unfolding sleep_begin sleep_end set_status new_queue
  schedule_sleep-IsQueued =
      let (queued, has_running) = context_switch-HasRunning idle _ asleep-IsQueued in
      (
        new_queue,
        walked_state,
        ground arith,
        ground arith,
        rw has-sleep_insert (ground arith),
        asleep-IsQueued.sorted,
        queued,
        has_running,
      )

  -- From a state whose queues are in order and whose sleep queue is not taken, a second thread
  -- that calls sleep, both to wake before tick 2^31, before the first has put the sleep queue
  -- back reads a NULL list.
  pub sleep_begin-race :
      (ticks' thr' : ℕ)
      → s.ticks + ticks' < 2 ^ 31
      → (queue : List ℕ) × (s' : Sched) × (sleep_begin ticks thr s ≡ Sleep.walked thr queue s')
        × (sleep_begin ticks' thr' s' ≡ Sleep.null_list)
  unfolding sleep_begin new_queue
  sleep_begin-race ticks' thr' fits' = (new_queue, walked_state, ground arith, ground arith)

wake_any-earliest :
    (s : Sched) (w : Option (List ℕ)) (t : ℕ)
    → Sorted s.wake_time (sleepers (record s { sleeping_threads = w }))
    → (wake_any w (record s { sleeping_threads = w })).0 ≡ some t
    → (s.wake_time t < s.ticks)
      × AllFrom s.wake_time
          (s.wake_time t)
          (sleepers (wake_any w (record s { sleeping_threads = w })).1)
unfolding wake_any
wake_any-earliest s none t v e = absurd (cc)
wake_any-earliest s (some []) t v e = absurd (cc)
wake_any-earliest s (some (x ∷ w)) t v e = elim (Bool-cases (ltb (s.wake_time x) s.ticks)) [
  | inr later ↦ absurd (ground arith)
  | inl due ↦
      let same : x ≡ t = ground arith in
      rw due (
        subst (λ u. (s.wake_time u < s.ticks) × AllFrom s.wake_time (s.wake_time u) w) same
          (ground arith, v.0))
]

-- From a state whose queues are in order, a sleeper that is woken was due, and none that is left
-- wakes before it.
get_sleeping_thread-earliest :
    {idle : ℕ} (s : Sched) (t : ℕ)
    → IsQueued idle s
    → (get_sleeping_thread s).0 ≡ some t
    → (s.wake_time t < s.ticks)
      × AllFrom s.wake_time (s.wake_time t) (sleepers (get_sleeping_thread s).1)
unfolding get_sleeping_thread
get_sleeping_thread-earliest s t v e = wake_any-earliest s s.sleeping_threads t v.sorted e
