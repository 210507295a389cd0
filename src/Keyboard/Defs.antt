-- ===== src/Keyboard/Defs.antt =====
-- The buffer and its functions. Characters are their codes; `out` is what `putbyte` was given.
use p.Base.{
  ℕ, zero, suc, ◌+◌, ◌-◌, ◌%◌, ◌==◌, leb, if◌then◌else◌, Option, none, some, List, [], ◌∷◌, ◌++◌,
  update,
}

abbrev pub buffer_size : ℕ
buffer_size = 2000

abbrev pub newline : ℕ
newline = 10

abbrev pub backspace : ℕ
backspace = 8

-- `newline_ptr` is `none` for -1.
pub record Keyboard : Type 0 where
  pub key_buf : ℕ → ℕ
  pub start_ptr : ℕ
  pub end_ptr : ℕ
  pub newline_ptr : Option ℕ
  pub out : List ℕ

-- NEXT and PREV
abbrev pub next : ℕ → ℕ
next i = (i + 1) % buffer_size

abbrev pub prev : ℕ → ℕ
prev i = if i == 0 then buffer_size - 1 else i - 1

abbrev pub first_newline : Option ℕ → (c i : ℕ) → Option ℕ
first_newline (some j) c i = some j
first_newline none c i = if c == newline then some i else none

unfoldable pub add_keystroke : (c : ℕ) → Keyboard → Keyboard
add_keystroke c s =
    if next s.end_ptr == s.start_ptr
    then s
    else let s' = record s {
      key_buf = update s.key_buf s.end_ptr c;
      newline_ptr = first_newline s.newline_ptr c s.end_ptr;
    } in
      if c == backspace
      then (if s.end_ptr == s.start_ptr
          then s'
          else record s' { end_ptr = prev s.end_ptr; out = s.out ++ c ∷ [] })
      else record s' { end_ptr = next s.end_ptr; out = s.out ++ c ∷ [] }

-- The answers of the two readers: ERR_INVAL, ERR_NOTAVAIL, or what was read.
pub data Answer {ℓ} (A : Type ℓ) : Type ℓ where
  inval notavail : Answer A
  got : A → Answer A

-- The copying loop of `get_nextline`, for a newline at `j`.
unfoldable pub copy_line : (j n : ℕ) → Keyboard → List ℕ × Keyboard
copy_line j zero s = ([], s)
copy_line j (suc n) s =
    let rest = copy_line j n (record s { start_ptr = next s.start_ptr }) in
    if s.start_ptr == j then ([], s) else (s.key_buf s.start_ptr ∷ rest.0, rest.1)

-- The loops of `update_start_ptr` and `update_newline_ptr` on fuel, `none` when it runs out.
unfoldable pub update_start_ptr : (j fuel : ℕ) → Keyboard → Option Keyboard
update_start_ptr j zero s = none
update_start_ptr j (suc fuel) s =
    let rest = update_start_ptr j fuel (record s { start_ptr = next s.start_ptr }) in
    if s.start_ptr == j then some (record s { start_ptr = next s.start_ptr }) else rest

unfoldable pub find_newline : (fuel i : ℕ) → Keyboard → Option (Option ℕ)
find_newline zero i s = none
find_newline (suc fuel) i s =
    let rest = find_newline fuel (next i) s in
    if s.key_buf i == newline then some (some i) else if i == s.end_ptr then some none else rest

abbrev pub with_newline : Keyboard → Option (Option ℕ) → Option Keyboard
with_newline s none = none
with_newline s (some r) = some (record s { newline_ptr = r })

unfoldable pub update_newline_ptr : (j fuel : ℕ) → Keyboard → Option Keyboard
unfolding find_newline
update_newline_ptr j fuel s = with_newline s (find_newline fuel (next j) s)

abbrev pub answer : List ℕ → Option Keyboard → Option (Answer (List ℕ) × Keyboard)
answer line none = none
answer line (some s) = some (Answer.got line, s)

unfoldable pub finish :
    (fuel j : ℕ) → List ℕ → Option Keyboard → Option (Answer (List ℕ) × Keyboard)
unfolding update_newline_ptr
finish fuel j line none = none
finish fuel j line (some s) = answer line (update_newline_ptr j fuel s)

unfoldable pub read_to : (fuel len : ℕ) → Option ℕ → Keyboard → Option (Answer (List ℕ) × Keyboard)
unfolding copy_line update_start_ptr finish
read_to fuel len none s = some (Answer.notavail, s)
read_to fuel len (some j) s =
    finish fuel j (copy_line j len s).0 (update_start_ptr j fuel (copy_line j len s).1)

-- `buf` is not NULL. A negative `len` does what zero does.
unfoldable pub get_nextline : (fuel len : ℕ) → Keyboard → Option (Answer (List ℕ) × Keyboard)
unfolding read_to
get_nextline fuel len s =
    if leb buffer_size len then some (Answer.inval, s) else read_to fuel len s.newline_ptr s

-- `start_ptr` is not taken around the end of the buffer, and `newline_ptr` stays.
unfoldable pub get_nextchar : Keyboard → Answer ℕ × Keyboard
get_nextchar s = elim s.newline_ptr [
  | none ↦ (Answer.notavail, s)
  | some j ↦ (Answer.got (s.key_buf s.start_ptr), record s { start_ptr = s.start_ptr + 1 })
]
