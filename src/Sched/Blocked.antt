-- ===== src/Sched/Blocked.antt =====
-- A context switch of a thread that is no longer running.
use p.Base.{
  ℕ, ◌≡◌, ◌≢◌, Option, none, some, List, [], ◌∷◌, arith, ◌∉◌, ltb, Bool-cases, inl, inr, false,
  has-append,
}
use p.Sched.Defs.{
  Status, is_running, Sched, take_head, wake_first, wake_any, sleeper_or_head, set_status,
  runq_add_thread, dispatch, get_sleeping_thread, next_thread, switch_to_thread, requeue, stays,
  context_switch,
}
use p.Sched.Invariant.{sleepers}

-- The thread is in no queue, and not running.
pub record Blocked (thr : ℕ) (st : Status) (s : Sched) : Type 0 where
  pub has_status : s.status thr ≡ st
  pub not_runnable : thr ∉ s.runnable_threads
  pub not_sleeping : thr ∉ sleepers s

-- What `next_thread` returns for a blocked thread: another thread, or NULL.
abbrev Passes : (thr : ℕ) (st : Status) → Option ℕ × Sched → Type 0
Passes thr st (none, s) = Blocked thr st s
Passes thr st (some t, s) = (t ≢ thr) × Blocked thr st s

module _ (thr : ℕ) (st : Status) where
  take_head-Passes :
      (s : Sched) (q : List ℕ)
      → Blocked thr st (record s { runnable_threads = q })
      → Passes thr st (take_head q (record s { runnable_threads = q }))
  unfolding take_head
  take_head-Passes s [] b = b
  take_head-Passes s (x ∷ q) b = (
    ground (arith, b.not_runnable),
    record {
      has_status = b.has_status;
      not_runnable = ground (arith, b.not_runnable);
      not_sleeping = b.not_sleeping;
    },
  )

  wake_any-Passes :
      (s : Sched) (w : Option (List ℕ))
      → Blocked thr st (record s { sleeping_threads = w })
      → Passes thr st (wake_any w (record s { sleeping_threads = w }))
  unfolding wake_any wake_first
  wake_any-Passes s none b = b
  wake_any-Passes s (some []) b = b
  wake_any-Passes s (some (x ∷ w)) b = elim (Bool-cases (ltb (s.wake_time x) s.ticks)) [
    | inr early ↦ rw early b
    | inl due ↦ rw due (
      ground (arith, b.not_sleeping),
      record {
        has_status = b.has_status;
        not_runnable = b.not_runnable;
        not_sleeping = ground (arith, b.not_sleeping);
      },
    )
  ]

  sleeper_or_head-Passes :
      (r : Option ℕ × Sched) → Passes thr st r → Passes thr st (sleeper_or_head r)
  unfolding sleeper_or_head
  sleeper_or_head-Passes (some t, s) b = b
  sleeper_or_head-Passes (none, s) b = take_head-Passes s s.runnable_threads b

  requeue-Blocked :
      (idle : ℕ) (s : Sched) (c : Option ℕ)
      → is_running st ≡ false
      → Blocked thr st s
      → Blocked thr st (requeue idle c s)
  unfolding requeue set_status runq_add_thread
  requeue-Blocked idle s none off b = b
  requeue-Blocked idle s (some c) off b = record {
    has_status = ground (arith, b.has_status, off);
    not_runnable =
        ground
          (arith, b.has_status, off, b.not_runnable, has-append thr s.runnable_threads (c ∷ []));
    not_sleeping = ground (arith, b.not_sleeping);
  }

  switch-Blocked :
      (t : ℕ) (s : Sched) → t ≢ thr → Blocked thr st s → Blocked thr st (switch_to_thread t s)
  unfolding switch_to_thread
  switch-Blocked t s apart b = record {
    has_status = ground (arith, b.has_status);
    not_runnable = b.not_runnable;
    not_sleeping = b.not_sleeping;
  }

  dispatch-Blocked :
      (idle : ℕ) (r : Option ℕ × Sched)
      → is_running st ≡ false
      → idle ≢ thr
      → Passes thr st r
      → Blocked thr st (dispatch idle r)
  unfolding dispatch
  dispatch-Blocked idle (some t, s) off apart (other, b) =
      switch-Blocked t (requeue idle s.curr s) other (requeue-Blocked idle s s.curr off b)
  dispatch-Blocked idle (none, s) off apart b = elim (Bool-cases (stays idle s.curr s)) [
    | inl on ↦ rw on b
    | inr leaves ↦
        rw leaves
          (switch-Blocked idle (requeue idle s.curr s) apart (requeue-Blocked idle s s.curr off b))
  ]

  -- A thread that is in no queue, not running and not the idle one is so after a context switch.
  pub context_switch-Blocked :
      (idle : ℕ) (s : Sched)
      → is_running st ≡ false
      → idle ≢ thr
      → Blocked thr st s
      → Blocked thr st (context_switch idle s)
  unfolding context_switch next_thread get_sleeping_thread
  context_switch-Blocked idle s off apart b =
      dispatch-Blocked idle (next_thread s) off apart
        (sleeper_or_head-Passes (get_sleeping_thread s) (wake_any-Passes s s.sleeping_threads b))
