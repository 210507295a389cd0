-- ===== src/Terminal/Defs.antt =====
-- The interrupt of the keyboard and the calls that wait for it. The mutex of the readers is held
-- but in their waits, so a step is the stretch between two waits.
use p.Base.{
  ℕ, ◌^◌, Bool, true, false, ◌&&◌, ◌||◌, not, ◌==◌, leb, if◌then◌else◌, Option, none, some, List,
}
use p.Vm.{Vm, is_pointer_valid, is_memory_writable}
use p.Sched.{Status, Sched}
use p.Sync.Cond.{Cond, cond_wait, cond_signal}
use p.Keyboard.{Keyboard, Answer, newline, add_keystroke, get_nextline, get_nextchar}

pub record Terminal : Type 0 where
  pub keyboard : Keyboard
  pub readline_cond_var : Cond
  pub sched : Sched

-- What `process_scancode` makes of a byte of the port.
pub record Key : Type 0 where
  pub has_data : Bool
  pub is_make : Bool
  pub char : ℕ

-- After a signal on the condition variable, which may fail its assertion.
abbrev signalled : Keyboard → Option (Cond × Sched) → Option Terminal
signalled k none = none
signalled k (some (cv, s)) = some (record { keyboard = k; readline_cond_var = cv; sched = s })

unfoldable pub enqueue_scancode : Key → Terminal → Option Terminal
unfolding add_keystroke cond_signal
enqueue_scancode key t =
    let k = add_keystroke key.char t.keyboard in
    if key.has_data && not key.is_make
    then if key.char == newline
      then signalled k (cond_signal t.readline_cond_var t.sched)
      else some (record t { keyboard = k })
    else some t

-- A call returns a value or ERR_INVAL, or it waits.
pub data Step {ℓ} (A : Type ℓ) : Type ℓ where
  returned : A → Terminal → Step A
  err_inval : Terminal → Step A
  waits : Terminal → Step A

abbrev waiting {ℓ} : {A : Type ℓ} → Keyboard → Option (Cond × Sched) → Option (Step A)
waiting k none = none
waiting k (some (cv, s)) =
    some (Step.waits (record { keyboard = k; readline_cond_var = cv; sched = s }))

-- One answer of the buffer to the thread `curr`.
unfoldable pub answered {ℓ} :
    {A : Type ℓ} → (idle curr : ℕ) → Terminal → Answer A × Keyboard → Option (Step A)
unfolding cond_wait
answered idle curr t (Answer.got a, k) = some (Step.returned a (record t { keyboard = k }))
answered idle curr t (Answer.inval, k) = some (Step.err_inval (record t { keyboard = k }))
answered idle curr t (Answer.notavail, k) =
    waiting k (cond_wait idle curr Status.waiting t.readline_cond_var t.sched)

-- From the call of `nextline` to the end or to a wait: the first stretch, and each one after a wait.
unfoldable pub readline_round : (fuel idle curr len : ℕ) → Terminal → Option (Step (List ℕ))
unfolding get_nextline answered
readline_round fuel idle curr len t = elim (get_nextline fuel len t.keyboard) [
  | none ↦ none
  | some r ↦ answered idle curr t r
]

unfoldable pub getchar_round : (idle curr : ℕ) → Terminal → Option (Step ℕ)
unfolding get_nextchar answered
getchar_round idle curr t = answered idle curr t (get_nextchar t.keyboard)

-- The test of the buffer before the first stretch.
unfoldable pub readline_checked :
    (valid : Option Bool) (writable : Bool)
    → Option (Step (List ℕ))
    → Terminal
    → Option (Step (List ℕ))
readline_checked none writable round t = none
readline_checked (some false) writable round t = some (Step.err_inval t)
readline_checked (some true) writable round t = if writable then round else some (Step.err_inval t)

-- `len` is the bit pattern of an int.
unfoldable pub readline_handler :
    (fuel idle curr : ℕ) → Vm → (len buf : ℕ) → Terminal → Option (Step (List ℕ))
unfolding readline_round readline_checked
readline_handler fuel idle curr vm len buf t =
    if (len == 0) || leb (2 ^ 31) len
    then some (Step.err_inval t)
    else readline_checked (is_pointer_valid fuel buf len vm) (is_memory_writable buf len vm)
        (readline_round fuel idle curr len t) t
