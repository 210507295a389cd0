-- ===== src/Terminal/Lines.antt =====
-- A line on its way from the keys to the reader that waits for it.
use p.Base.{
  ℕ, ◌+◌, ◌%◌, ◌<◌, ◌≡◌, ◌≢◌, refl, ap, ◌∙◌, sym, subst, true, false, ◌==◌, if◌then◌else◌, if-false,
  ≢→ne, Option, none, some, List, [], ◌∷◌, ◌++◌, length, length-append, append_assoc, append-nil,
  take, arith,
}
use p.Sched.{Status, Sched, set_status, runq_add_thread}
use p.Sync.Cond.{Cond, cond_signal, signal_first, make_runnable}
use p.Keyboard.{Keyboard, newline, backspace, buffer_size, next, add_keystroke}
use p.Keyboard.Window.{Holds, add_keystroke-appends}
use p.Keyboard.Lines.{get_nextline_lem}
use p.Terminal.Defs.{Terminal, Key, enqueue_scancode, returned, readline_round, answered}

-- A key of a character that is let go.
abbrev pub let_go : ℕ → Key
let_go c = record { has_data = true; is_make = false; char = c }

-- One key after the other.
abbrev pub type_keys : List ℕ → Terminal → Option Terminal
type_keys [] t = some t
type_keys (c ∷ cs) t = elim (enqueue_scancode (let_go c) t) [
  | none ↦ none
  | some t' ↦ type_keys cs t'
]

-- Characters of a line.
abbrev pub ArePlain : List ℕ → Type 0
ArePlain [] = Unit
ArePlain (c ∷ cs) = (c ≢ newline) × (c ≢ backspace) × ArePlain cs

pointers-add_keystroke :
    (s : Keyboard) (q : List ℕ) (c : ℕ)
    → Holds s q
    → c ≢ backspace
    → length q + 1 < buffer_size
    → s.newline_ptr ≡ none
    → ((add_keystroke c s).start_ptr ≡ s.start_ptr)
      × ((add_keystroke c s).newline_ptr ≡ (if c == newline then some s.end_ptr else none))
unfolding add_keystroke
pointers-add_keystroke s q c v ne room clear =
    let b = v.end_at in
    rw (≢→ne (next s.end_ptr) s.start_ptr (λ e. omega arith), ≢→ne c backspace ne, clear)
      (refl, refl)

type_plain :
    (c : ℕ) (cs : List ℕ) (t : Terminal)
    → c ≢ newline
    → type_keys (c ∷ cs) t ≡ type_keys cs (record t { keyboard = add_keystroke c t.keyboard })
unfolding enqueue_scancode
type_plain c cs t plain = rw (type_keys, enqueue_scancode, ≢→ne c newline plain) refl

-- Typed characters come behind those in the buffer, and wake nobody.
type_keys-plain :
    (t : Terminal) (q cs more : List ℕ)
    → Holds t.keyboard q
    → ArePlain cs
    → length q + length cs + 1 < buffer_size
    → t.keyboard.newline_ptr ≡ none
    → (k : Keyboard) × (type_keys (cs ++ more) t ≡ type_keys more (record t { keyboard = k }))
      × Holds k (q ++ cs)
      × (k.newline_ptr ≡ none)
type_keys-plain t q [] more v plain room clear =
    (t.keyboard, refl, subst (Holds t.keyboard) (sym (append-nil q)) v, clear)
type_keys-plain t q (c ∷ cs) more v plain room clear =
    let k = add_keystroke c t.keyboard in
    let pointers = pointers-add_keystroke t.keyboard q c v plain.1 (omega arith) clear in
    let (k', typed, holds, clear') =
      type_keys-plain (record t { keyboard = k }) (q ++ c ∷ []) cs more
        (add_keystroke-appends t.keyboard q c v plain.1 (omega arith)).0 plain.2
        (omega (arith, length-append q (c ∷ [])))
        (pointers.1
          ∙ if-false (c == newline) (some t.keyboard.end_ptr) none (≢→ne c newline plain.0)) in
    (
      k',
      type_plain c (cs ++ more) t plain.0 ∙ typed,
      subst (Holds k') (append_assoc q (c ∷ []) cs) holds,
      clear',
    )

-- The newline wakes the first reader.
type_newline :
    (t : Terminal) (w : ℕ) (ws : List ℕ)
    → t.readline_cond_var.status ≡ true
    → t.readline_cond_var.waiting ≡ w ∷ ws
    → type_keys (newline ∷ []) t
      ≡ some record {
        keyboard = add_keystroke newline t.keyboard;
        readline_cond_var = record { status = t.readline_cond_var.status; waiting = ws };
        sched = make_runnable w t.sched;
      }
unfolding enqueue_scancode cond_signal signal_first
type_newline t w ws valid queue = rw (enqueue_scancode, cond_signal, valid, queue) refl

is_runnable :
    (w : ℕ) (s : Sched)
    → ((make_runnable w s).status w ≡ Status.runnable)
      × ((make_runnable w s).runnable_threads ≡ s.runnable_threads ++ w ∷ [])
unfolding make_runnable runq_add_thread set_status
is_runnable w s = (ground arith, refl)

-- When a reader waits first on the valid condition variable, the buffer holds characters without
-- a newline, and keys are let go for characters without newline and backspace that leave room for
-- one more, then the newline makes this reader runnable, with status RUNNABLE and behind the
-- others in the run queue, and leaves the other readers waiting, and with more fuel than the size
-- of the buffer its next stretch of readline, in any later state of the queues, returns the line
-- cut to the length it asked for, a length below that size, and leaves the buffer empty.
pub type_keys-readline_round :
    (fuel idle len w : ℕ) (ws q cs : List ℕ) (t : Terminal) (later : Sched) (cv : Cond)
    → Holds t.keyboard q
    → t.keyboard.newline_ptr ≡ none
    → ArePlain cs
    → length q + length cs + 2 < buffer_size
    → t.readline_cond_var.status ≡ true
    → t.readline_cond_var.waiting ≡ w ∷ ws
    → len < buffer_size
    → buffer_size < fuel
    → (t' t'' : Terminal) × (type_keys (cs ++ newline ∷ []) t ≡ some t')
      × (t'.sched ≡ make_runnable w t.sched)
      × (t'.sched.status w ≡ Status.runnable)
      × (t'.sched.runnable_threads ≡ t.sched.runnable_threads ++ w ∷ [])
      × (t'.readline_cond_var.waiting ≡ ws)
      × (readline_round fuel idle w len (record t' { readline_cond_var = cv; sched = later })
          ≡ some (returned (take len (q ++ cs)) t''))
      × Holds t''.keyboard []
unfolding readline_round answered
type_keys-readline_round fuel idle len w ws q cs t later cv v clear plain room valid queue small
      enough =
    let (k, typed, holds, clear') =
      type_keys-plain t q cs (newline ∷ []) v plain (omega arith) clear in
    let n = length-append q cs in
    let room' : length (q ++ cs) + 1 < buffer_size = omega (arith, n) in
    let not_backspace : newline ≢ backspace = omega arith in
    let pointers = pointers-add_keystroke k (q ++ cs) newline holds not_backspace room' clear' in
    let k' = add_keystroke newline k in
    let at : k'.newline_ptr ≡ some ((k'.start_ptr + length (q ++ cs)) % buffer_size) =
      pointers.1
      ∙ ap some (holds.end_at ∙ ap (λ i. (i + length (q ++ cs)) % buffer_size) (sym pointers.0)) in
    let (s, got_line, left, echo) =
      get_nextline_lem fuel len k' (q ++ cs) []
        (add_keystroke-appends k (q ++ cs) newline holds not_backspace room').0 at small enough in
    (
      record {
        keyboard = k';
        readline_cond_var = record { status = t.readline_cond_var.status; waiting = ws };
        sched = make_runnable w t.sched;
      },
      record { keyboard = s; readline_cond_var = cv; sched = later },
      typed ∙ type_newline (record t { keyboard = k }) w ws valid queue,
      refl,
      (is_runnable w t.sched).0,
      (is_runnable w t.sched).1,
      refl,
      rw (readline_round, got_line) refl,
      left,
    )
