-- ===== src/Terminal/Tests.antt =====
-- A keyboard on which thread 4 and thread 5 wait.
use p.Base.{◌≡◌, refl, ◌==◌, if◌then◌else◌, [], ◌∷◌, ◌++◌, true, false, none, some, take, arith}
use p.Sched.{Status, Sched}
use p.Sync.Cond.{Cond, make_runnable}
use p.Keyboard.{Keyboard, newline, add_keystroke, get_nextchar}
use p.Keyboard.Window.{Holds}
use p.Terminal.Defs.{Terminal, returned, err_inval, readline_round, readline_checked}
use p.Terminal.Lines.{type_keys, type_keys-readline_round}

abbrev sched : Sched
sched = record {
  status = λ t. if t == 2 then Status.running else Status.waiting;
  wake_time = λ t. 0;
  runnable_threads = 3 ∷ [];
  sleeping_threads = some [];
  curr = some 2;
  ticks = 0;
}

abbrev no_keys : Keyboard
no_keys = record { key_buf = λ i. 0; start_ptr = 0; end_ptr = 0; newline_ptr = none; out = [] }

abbrev two_waiting : Cond
two_waiting = record { status = true; waiting = 4 ∷ 5 ∷ [] }

abbrev terminal : Terminal
terminal = record { keyboard = no_keys; readline_cond_var = two_waiting; sched = sched }

no_keys-Holds : Holds no_keys []
no_keys-Holds = record { start_in = omega arith; end_at = refl; room = omega arith; items = tt }

type_keys-readline_round_example :
    (t' t'' : Terminal) × (type_keys ((104 ∷ 105 ∷ []) ++ newline ∷ []) terminal ≡ some t')
    × (t'.sched ≡ make_runnable 4 sched)
    × (t'.sched.status 4 ≡ Status.runnable)
    × (t'.sched.runnable_threads ≡ sched.runnable_threads ++ 4 ∷ [])
    × (t'.readline_cond_var.waiting ≡ 5 ∷ [])
    × (readline_round 2001 1 4 80 (record t' { readline_cond_var = two_waiting; sched = sched })
        ≡ some (returned (take 80 (104 ∷ 105 ∷ [])) t''))
    × Holds t''.keyboard []
type_keys-readline_round_example =
    type_keys-readline_round 2001 1 80 4 (5 ∷ []) [] (104 ∷ 105 ∷ []) terminal sched two_waiting
      no_keys-Holds refl (omega arith, omega arith, (omega arith, omega arith, tt)) (omega arith)
      refl refl (omega arith) (omega arith)

-- One signal for a line of two characters: getchar, which waited first, takes one of them, and the
-- line is still there for the other reader, which waits on.
abbrev one_char_taken : Keyboard
one_char_taken =
    (get_nextchar (add_keystroke newline (add_keystroke 97 (add_keystroke 98 no_keys)))).1

line_left_run : (one_char_taken.start_ptr ≡ 1) × (one_char_taken.newline_ptr ≡ some 2)
unfolding get_nextchar add_keystroke
line_left_run = (refl, refl)

-- A buffer that may not be written is refused.
refused_run : readline_checked (some true) false none terminal ≡ some (err_inval terminal)
unfolding readline_checked
refused_run = refl
