-- ===== src/Sched/Defs.antt =====
-- The scheduler's state and functions. A thread is named by its address; its status and its wake
-- time are tables. Interrupts are off in each function, so a call is one step.
use p.Base.{
  ℕ, ◌+◌, ◌^◌, Bool, true, false, ◌&&◌, ◌||◌, not, ◌==◌, ltb, leb, if◌then◌else◌, Option, none,
  some, List, [], ◌∷◌, ◌++◌, update,
}

-- The thread states of kern/inc/core/thread.h
pub data Status : Type 0 where
  running runnable waiting exited descheduled : Status

abbrev pub is_running : Status → Bool
is_running Status.running = true
is_running Status.runnable = false
is_running Status.waiting = false
is_running Status.exited = false
is_running Status.descheduled = false

-- `curr` is `curr_thread`, NULL after a thread has vanished. `sleeping` is NULL while
-- `schedule_sleep` walks the list.
pub record Sched : Type 0 where
  pub status : ℕ → Status
  pub wake_time : ℕ → ℕ
  pub runnable_threads : List ℕ
  pub sleeping_threads : Option (List ℕ)
  pub curr : Option ℕ
  pub ticks : ℕ

unfoldable pub set_status : ℕ → Status → Sched → Sched
set_status thr st s = record s { status = update s.status thr st }

-- `runq_add_thread` and `runq_add_thread_interruptible`
unfoldable pub runq_add_thread : ℕ → Sched → Sched
runq_add_thread thr s = record s { runnable_threads = s.runnable_threads ++ thr ∷ [] }

unfoldable pub take_head : List ℕ → Sched → Option ℕ × Sched
take_head [] s = (none, s)
take_head (thr ∷ rest) s = (some thr, record s { runnable_threads = rest })

unfoldable pub runq_get_head : Sched → Option ℕ × Sched
unfolding take_head
runq_get_head s = take_head s.runnable_threads s

-- The first sleeper, if its time has passed.
unfoldable pub wake_first : List ℕ → Sched → Option ℕ × Sched
wake_first [] s = (none, s)
wake_first (thr ∷ rest) s =
    if ltb (s.wake_time thr) s.ticks
    then (some thr, record s { sleeping_threads = some rest })
    else (none, s)

unfoldable pub wake_any : Option (List ℕ) → Sched → Option ℕ × Sched
unfolding wake_first
wake_any none s = (none, s)
wake_any (some queue) s = wake_first queue s

unfoldable pub get_sleeping_thread : Sched → Option ℕ × Sched
unfolding wake_any
get_sleeping_thread s = wake_any s.sleeping_threads s

unfoldable pub sleeper_or_head : Option ℕ × Sched → Option ℕ × Sched
unfolding runq_get_head
sleeper_or_head (some t, s) = (some t, s)
sleeper_or_head (none, s) = runq_get_head s

unfoldable pub next_thread : Sched → Option ℕ × Sched
unfolding get_sleeping_thread sleeper_or_head
next_thread s = sleeper_or_head (get_sleeping_thread s)

-- The stack, the page directory and the registers that are switched as well are the machine's.
unfoldable pub switch_to_thread : ℕ → Sched → Sched
switch_to_thread thr s = record s { curr = some thr; status = update s.status thr Status.running }

-- The thread that gives up the processor goes to the end of the run queue, if it is still running.
unfoldable pub requeue : (idle : ℕ) → Option ℕ → Sched → Sched
unfolding set_status runq_add_thread
requeue idle none s = s
requeue idle (some c) s =
    if is_running (s.status c) && not (c == idle)
    then runq_add_thread c (set_status c Status.runnable s)
    else s

-- With nothing to run, a running thread, or the idle one, simply goes on.
unfoldable pub stays : (idle : ℕ) → Option ℕ → Sched → Bool
stays idle none s = false
stays idle (some c) s = (c == idle) || is_running (s.status c)

-- The rest of `context_switch`, with the thread that `next_thread` returned.
unfoldable pub dispatch : (idle : ℕ) → Option ℕ × Sched → Sched
unfolding requeue stays switch_to_thread
dispatch idle (some t, s) = switch_to_thread t (requeue idle s.curr s)
dispatch idle (none, s) =
    if stays idle s.curr s then s else switch_to_thread idle (requeue idle s.curr s)

unfoldable pub context_switch : (idle : ℕ) → Sched → Sched
unfolding next_thread dispatch
context_switch idle s = dispatch idle (next_thread s)

-- The walk of `schedule_sleep` stops at the first thread that wakes later.
unfoldable pub sleep_insert : (ℕ → ℕ) → ℕ → List ℕ → List ℕ
sleep_insert wake thr [] = thr ∷ []
sleep_insert wake thr (t ∷ q) =
    if ltb (wake thr) (wake t) then thr ∷ t ∷ q else t ∷ sleep_insert wake thr q

-- `schedule_sleep` up to the release of `sleep_list_mutex`: the list is taken, `sleeping_threads` is
-- NULL, and the new list is still local. The result is `null_list` where the source reads through a NULL
-- list head. `curr_ticks + ticks` is a 32-bit signed sum.
pub data Sleep : Type 0 where
  no_sleep : Sched → Sleep
  walked : (thr : ℕ) (queue : List ℕ) → Sched → Sleep
  null_list : Sleep

unfoldable pub sleep_begin : (ticks : ℕ) → ℕ → Sched → Sleep
unfolding sleep_insert
sleep_begin ticks thr s =
    if leb (2 ^ 31) (s.ticks + ticks)
    then Sleep.no_sleep s
    else let s' = record s { wake_time = update s.wake_time thr (s.ticks + ticks) } in
      elim s.sleeping_threads [
        | none ↦ Sleep.null_list
        | some q ↦
            Sleep.walked thr (sleep_insert s'.wake_time thr q)
              (record s' { sleeping_threads = none })
      ]

-- The rest of `schedule_sleep`, with interrupts off.
unfoldable pub sleep_end : (idle thr : ℕ) → List ℕ → Sched → Sched
unfolding context_switch set_status
sleep_end idle thr queue s =
    context_switch idle (set_status thr Status.waiting (record s { sleeping_threads = some queue }))
