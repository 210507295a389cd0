-- ===== src/Mutex/Defs.antt =====
-- The mutex functions. A failed `thread_assert` is `none`. The body of `mutex_lock` is a loop around
-- a context switch, so one round of it is a function, and `Threads` puts the rounds of all threads
-- together.
use p.Base.{Bool, true, false, ℕ, if◌then◌else◌, Option, none, some, List, [], ◌∷◌, ◌++◌}
use p.Sched.{Status, Sched, set_status, runq_add_thread, context_switch}

-- The `value` of a mutex: 1, 0 or MUTEX_INVALID.
pub data Value : Type 0 where
  unlocked locked invalid : Value

pub record Mutex : Type 0 where
  pub value : Value
  pub waiting : List ℕ

-- The scheduler, the static `enable` of mutex.c, and the interrupt flag of EFLAGS.
pub record Kernel : Type 0 where
  pub sched : Sched
  pub enable : Bool
  pub interrupts : Bool

unfoldable pub mutex_init : Mutex
mutex_init = record { value = Value.unlocked; waiting = [] }

unfoldable pub enable_mutex_lib : Kernel → Kernel
enable_mutex_lib k = record k { enable = true }

unfoldable pub disable_interrupts_mutex : Kernel → Kernel
disable_interrupts_mutex k = if k.enable then record k { interrupts = false } else k

unfoldable pub enable_interrupts_mutex : Kernel → Kernel
enable_interrupts_mutex k = if k.enable then record k { interrupts = true } else k

-- The last statement of the four functions: `mutex_lock` and `mutex_unlock` always enable, the two
-- `_int_save` functions where interrupts were on at the call.
unfoldable pub restore_interrupts : (int_flag : Bool) → Kernel → Kernel
unfolding enable_interrupts_mutex
restore_interrupts int_flag k = if int_flag then enable_interrupts_mutex k else k

unfoldable pub assert_valid : {A : Type 0} → Mutex → A → Option A
assert_valid m a = elim m.value [
  | Value.invalid ↦ none
  | Value.locked ↦ some a
  | Value.unlocked ↦ some a
]

unfoldable pub mutex_destroy : Mutex → Option Mutex
unfolding assert_valid
mutex_destroy m = assert_valid m (record m { value = Value.invalid })

-- What a round of the loop of `mutex_lock` does: the thread has the mutex, or it has given up the
-- processor, and tests again when it next runs.
pub data Round : Type 0 where
  acquired : Mutex → Kernel → Round
  blocked : Mutex → Kernel → Round

-- `context_switch` enables interrupts before it returns.
unfoldable pub block : (idle thr : ℕ) → Mutex → Kernel → Round
block idle thr m k =
    Round.blocked (record m { waiting = m.waiting ++ thr ∷ [] })
      (record k {
        sched = context_switch idle (set_status thr Status.waiting k.sched);
        interrupts = true;
      })

-- `int_flag` is true for `mutex_lock`. The assertions stand before the loop, and a destroyed mutex
-- is not tested for again.
unfoldable pub lock_round : (int_flag : Bool) (idle thr : ℕ) → Mutex → Kernel → Round
unfolding block
lock_round int_flag idle thr m k = elim m.value [
  | Value.locked ↦ block idle thr m (disable_interrupts_mutex k)
  | Value.unlocked ↦
      Round.acquired (record m { value = Value.locked })
        (restore_interrupts int_flag (disable_interrupts_mutex k))
  | Value.invalid ↦
      Round.acquired (record m { value = Value.locked })
        (restore_interrupts int_flag (disable_interrupts_mutex k))
]

unfoldable pub mutex_lock : (idle thr : ℕ) → Mutex → Kernel → Option Round
unfolding lock_round assert_valid
mutex_lock idle thr m k = assert_valid m (lock_round true idle thr m k)

unfoldable pub mutex_lock_int_save : (idle thr : ℕ) → Mutex → Kernel → Option Round
unfolding lock_round assert_valid
mutex_lock_int_save idle thr m k = assert_valid m (lock_round k.interrupts idle thr m k)

-- The first waiting thread becomes runnable and leaves the queue; it does not get the mutex.
unfoldable pub wake : List ℕ → Sched → List ℕ × Sched
wake [] s = ([], s)
wake (thr ∷ rest) s = (rest, runq_add_thread thr (set_status thr Status.runnable s))

unfoldable pub release : (int_flag : Bool) → Mutex → Kernel → Mutex × Kernel
unfolding wake
release int_flag m k =
    let k' = disable_interrupts_mutex k in
    let (rest, s) = wake m.waiting k'.sched in
    (
      record { value = Value.unlocked; waiting = rest },
      restore_interrupts int_flag (record k' { sched = s }),
    )

unfoldable pub mutex_unlock : Mutex → Kernel → Option (Mutex × Kernel)
unfolding release assert_valid
mutex_unlock m k = assert_valid m (release true m k)

unfoldable pub mutex_unlock_int_save : Mutex → Kernel → Option (Mutex × Kernel)
unfolding release assert_valid
mutex_unlock_int_save m k = assert_valid m (release k.interrupts m k)
