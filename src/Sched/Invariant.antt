-- ===== src/Sched/Invariant.antt =====
-- Each thread waits in at most one queue, with the status that belongs to the queue, and after a
-- context switch a running thread has the processor.
use p.Base.{
  sym, ◌∙◌, ap, subst, ℕ, ◌≡◌, refl, ◌≢◌, Option, none, some, List, [], ◌∷◌, arith, ◌∉◌, ◌∈◌,
  Distinct, has-append, Distinct-snoc, ◌&&◌, not, ◌==◌, ltb, Bool-cases, inl, inr, true, false,
}
use p.Sched.Defs.{
  Status, is_running, Sched, set_status, runq_add_thread, take_head, wake_any, sleeper_or_head,
  dispatch, get_sleeping_thread, next_thread, switch_to_thread, requeue, stays, context_switch,
}
use p.Sched.SleepQueue.{Sorted}

-- The sleeping threads, none while the list is taken by a walk.
abbrev pub sleepers : Sched → List ℕ
sleepers s = elim s.sleeping_threads [ none ↦ [] | some q ↦ q ]

pub record IsQueued (idle : ℕ) (s : Sched) : Type 0 where
  pub runq_once : Distinct s.runnable_threads
  pub sleep_once : Distinct (sleepers s)
  pub sorted : Sorted s.wake_time (sleepers s)
  pub runq_status : (t : ℕ) → t ∈ s.runnable_threads → s.status t ≡ Status.runnable
  pub sleep_status : (t : ℕ) → t ∈ sleepers s → s.status t ≡ Status.waiting
  pub idle_out : (idle ∉ s.runnable_threads) × (idle ∉ sleepers s)
  pub idle_runs : s.curr ≡ some idle → s.status idle ≡ Status.running

-- The thread that has the processor is running.
abbrev pub HasRunning : Sched → Type 0
HasRunning s = (c : ℕ) × (s.curr ≡ some c) × (s.status c ≡ Status.running)

requeue-IsQueued :
    {idle : ℕ} {s : Sched} (c : Option ℕ) → IsQueued idle s → IsQueued idle (requeue idle c s)
unfolding requeue
requeue-IsQueued none v = v
requeue-IsQueued {idle} {s} (some c) v =
    elim (Bool-cases (is_running (s.status c) && not (c == idle))) [
      | inr stays ↦ rw stays v
      | inl goes ↦ rw goes (record {
        runq_once =
            Distinct-snoc s.runnable_threads c v.runq_once (ground (arith, v.runq_status c));
        sleep_once = v.sleep_once;
        sorted = v.sorted;
        runq_status =
            λ t i. ground (arith, has-append t s.runnable_threads (c ∷ []), v.runq_status t);
        sleep_status = λ t i. ground (arith, v.sleep_status t, v.sleep_status c);
        idle_out = ground (arith, has-append idle s.runnable_threads (c ∷ []), v.idle_out);
        idle_runs = λ e. ground (arith, v.idle_runs e);
      })
    ]

-- A thread in neither queue can take the processor.
switch-IsQueued :
    {idle : ℕ} {s : Sched} (t : ℕ)
    → IsQueued idle s
    → t ∉ s.runnable_threads
    → t ∉ sleepers s
    → IsQueued idle (switch_to_thread t s) × HasRunning (switch_to_thread t s)
unfolding switch_to_thread
switch-IsQueued {idle} {s} t v o o' = (
  record {
    runq_once = v.runq_once;
    sleep_once = v.sleep_once;
    sorted = v.sorted;
    idle_out = v.idle_out;
    idle_runs = λ e. ground arith;
    runq_status = λ u i. ground (arith, v.runq_status u);
    sleep_status = λ u i. ground (arith, v.sleep_status u);
  },
  (t, refl, ground arith),
)

-- What `next_thread` returns: a thread that has left its queue and is not running, or NULL.
record Picked (idle t : ℕ) (s : Sched) : Type 0 where
  queued : IsQueued idle s
  out : (t ∉ s.runnable_threads) × (t ∉ sleepers s)
  ready : is_running (s.status t) ≡ false

abbrev IsNext : (idle : ℕ) → Option ℕ × Sched → Type 0
IsNext idle (none, s) = IsQueued idle s
IsNext idle (some t, s) = Picked idle t s

-- The queue is an argument here, since a match on a field of `s` does not reach what `s` is in.
take_head-IsNext :
    {idle : ℕ} (s : Sched) (q : List ℕ)
    → IsQueued idle (record s { runnable_threads = q })
    → IsNext idle (take_head q (record s { runnable_threads = q }))
unfolding take_head
take_head-IsNext s [] v = v
take_head-IsNext s (x ∷ q) v = record {
  queued = record {
    runq_once = v.runq_once.1;
    sleep_once = v.sleep_once;
    sorted = v.sorted;
    runq_status = λ u i. v.runq_status u (ground arith);
    sleep_status = v.sleep_status;
    idle_out = ground (arith, v.idle_out);
    idle_runs = v.idle_runs;
  };
  out = ground (arith, v.runq_once, v.runq_status x, v.sleep_status x);
  ready = ground (arith, v.runq_status x);
}

wake_any-IsNext :
    {idle : ℕ} (s : Sched) (w : Option (List ℕ))
    → IsQueued idle (record s { sleeping_threads = w })
    → IsNext idle (wake_any w (record s { sleeping_threads = w }))
unfolding wake_any
wake_any-IsNext s none v = v
wake_any-IsNext s (some []) v = v
wake_any-IsNext s (some (x ∷ w)) v = elim (Bool-cases (ltb (s.wake_time x) s.ticks)) [
  | inr later ↦ rw later v
  | inl due ↦ rw due (record {
    queued = record {
      runq_once = v.runq_once;
      sleep_once = v.sleep_once.1;
      sorted = v.sorted.1;
      runq_status = v.runq_status;
      sleep_status = λ u i. v.sleep_status u (ground arith);
      idle_out = ground (arith, v.idle_out);
      idle_runs = v.idle_runs;
    };
    out = ground (arith, v.sleep_once, v.runq_status x, v.sleep_status x);
    ready = ground (arith, v.sleep_status x);
  })
]

sleeper_or_head-IsNext :
    (idle : ℕ) (r : Option ℕ × Sched) → IsNext idle r → IsNext idle (sleeper_or_head r)
unfolding sleeper_or_head
sleeper_or_head-IsNext idle (some t, s) v = v
sleeper_or_head-IsNext idle (none, s) v = take_head-IsNext s s.runnable_threads v

next_thread-IsNext : {idle : ℕ} (s : Sched) → IsQueued idle s → IsNext idle (next_thread s)
unfolding next_thread
next_thread-IsNext {idle} s v =
    sleeper_or_head-IsNext idle (get_sleeping_thread s) (wake_any-IsNext s s.sleeping_threads v)

requeue-out :
    (idle t : ℕ) (s : Sched) (c : Option ℕ)
    → t ∉ s.runnable_threads
    → t ∉ sleepers s
    → is_running (s.status t) ≡ false
    → (t ∉ (requeue idle c s).runnable_threads) × (t ∉ sleepers (requeue idle c s))
unfolding requeue
requeue-out idle t s none o o' n = (o, o')
requeue-out idle t s (some c) o o' n = ground (arith, has-append t s.runnable_threads (c ∷ []))

requeue-idle :
    (idle : ℕ) (s : Sched) (c : Option ℕ)
    → idle ∉ s.runnable_threads
    → idle ∉ sleepers s
    → (idle ∉ (requeue idle c s).runnable_threads) × (idle ∉ sleepers (requeue idle c s))
unfolding requeue
requeue-idle idle s none o o' = (o, o')
requeue-idle idle s (some c) o o' = ground (arith, has-append idle s.runnable_threads (c ∷ []))

stays-HasRunning :
    {idle : ℕ} {s : Sched} (c : Option ℕ)
    → IsQueued idle s
    → s.curr ≡ c
    → stays idle c s ≡ true
    → HasRunning s
unfolding stays
stays-HasRunning none v e h = absurd (cc)
stays-HasRunning {idle} {s} (some c) v e h = (
  c,
  e,
  elim (Bool-cases (c == idle)) [
    | inl same ↦
        let i : idle ≡ c = ground arith in
        subst (λ k. s.status k ≡ Status.running) i (v.idle_runs (e ∙ ap some (sym i)))
    | inr other ↦ ground arith
  ],
)

dispatch-HasRunning :
    (idle : ℕ) (r : Option ℕ × Sched)
    → IsNext idle r
    → IsQueued idle (dispatch idle r) × HasRunning (dispatch idle r)
unfolding dispatch
dispatch-HasRunning idle (some t, s) p =
    let o = requeue-out idle t s s.curr p.out.0 p.out.1 p.ready in
    switch-IsQueued t (requeue-IsQueued s.curr p.queued) o.0 o.1
dispatch-HasRunning idle (none, s) v = elim (Bool-cases (stays idle s.curr s)) [
  | inl on ↦ rw on (v, stays-HasRunning s.curr v refl on)
  | inr off ↦
      let o = requeue-idle idle s s.curr v.idle_out.0 v.idle_out.1 in
      rw off (switch-IsQueued idle (requeue-IsQueued s.curr v) o.0 o.1)
]

-- From a state whose queues are in order, a context switch leaves them in order, and a running
-- thread has the processor after it.
pub context_switch-HasRunning :
    (idle : ℕ) (s : Sched)
    → IsQueued idle s
    → IsQueued idle (context_switch idle s) × HasRunning (context_switch idle s)
unfolding context_switch
context_switch-HasRunning idle s v =
    dispatch-HasRunning idle (next_thread s) (next_thread-IsNext s v)

-- A running thread may be marked as waiting before it gives up the processor.
pub waiting-IsQueued :
    {idle : ℕ} {s : Sched} (thr : ℕ) (st : Status)
    → IsQueued idle s
    → s.status thr ≡ Status.running
    → thr ≢ idle
    → IsQueued idle (set_status thr st s)
unfolding set_status
waiting-IsQueued {idle} {s} thr st v r ne = record {
  runq_once = v.runq_once;
  sleep_once = v.sleep_once;
  sorted = v.sorted;
  runq_status = λ t i. ground (arith, v.runq_status t);
  sleep_status = λ t i. ground (arith, v.sleep_status t);
  idle_out = v.idle_out;
  idle_runs = λ e. ground (arith, v.idle_runs e);
}

-- A thread that is in no queue and does not run may be made runnable.
pub wake-IsQueued :
    {idle : ℕ} {s : Sched} (thr : ℕ)
    → IsQueued idle s
    → s.status thr ≢ Status.runnable
    → thr ∉ sleepers s
    → thr ≢ idle
    → IsQueued idle (runq_add_thread thr (set_status thr Status.runnable s))
unfolding set_status runq_add_thread
wake-IsQueued {idle} {s} thr v r o ne = record {
  runq_once = Distinct-snoc s.runnable_threads thr v.runq_once (ground (arith, v.runq_status thr));
  sleep_once = v.sleep_once;
  sorted = v.sorted;
  runq_status = λ t i. ground (arith, has-append t s.runnable_threads (thr ∷ []), v.runq_status t);
  sleep_status = λ t i. ground (arith, v.sleep_status t);
  idle_out = ground (arith, has-append idle s.runnable_threads (thr ∷ []), v.idle_out);
  idle_runs = λ e. ground (arith, v.idle_runs e);
}
