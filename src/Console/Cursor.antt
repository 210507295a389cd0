-- ===== src/Console/Cursor.antt =====
-- Where the cursor is after output, and what stands before it.
use p.Base.{
  ℕ, suc, zero, ◌+◌, ◌-◌, ◌*◌, ◌%◌, ◌^◌, ◌≤◌, ◌<◌, ◌≡◌, refl, ◌∙◌, ap, Bool-cases, inl, inr, true,
  false, ◌||◌, ◌==◌, leb, if-true, if-false, List, [], ◌∷◌, arith,
}
use p.Console.Defs.{
  Console, success, console_width, console_height, console_mem_end, move_up, newline,
  carriage_return, backspace, set_logical_cursor, empty_fill, scroll_screen, print_char, place,
  make_room, advance, erase, putbyte, putbytes, out_of_screen, set_cursor, get_char, get_color,
  hide_cursor, set_hardware_cursor, is_cursor_hidden,
}

-- The cursor is on the screen, or behind the last column of a row.
abbrev pub InBounds : Console → Type 0
InBounds s = (s.cursor_row < console_height) × (s.cursor_col ≤ console_width)

-- What a step leaves of the state, its memory and registers apart.
abbrev SameCursor : (s t : Console) → Type 0
SameCursor s t =
    (t.cursor_row ≡ s.cursor_row)
    × (t.cursor_col ≡ s.cursor_col)
    × (t.console_color ≡ s.console_color)

empty_fill-SameCursor : (addr num : ℕ) (s : Console) → SameCursor s (empty_fill addr num s)
unfolding empty_fill
empty_fill-SameCursor addr zero s = (refl, refl, refl)
empty_fill-SameCursor addr (suc num) s = empty_fill-SameCursor addr num s

scroll_screen-SameCursor : (n : ℕ) (s : Console) → SameCursor s (scroll_screen n s)
unfolding scroll_screen move_up
scroll_screen-SameCursor n s =
    elim (Bool-cases ((n == 0) || leb (2 ^ 31) n || leb console_height n)) [
      | inl nothing ↦ rw nothing (refl, refl, refl)
      | inr moved ↦ rw moved (
          empty_fill-SameCursor (console_mem_end - n * console_width * 2) (n * console_width * 2)
            (move_up (n * console_width * 2) s))
    ]

print_char-SameCursor :
    (ch row col color : ℕ) (s : Console) → SameCursor s (print_char ch row col color s)
unfolding print_char
print_char-SameCursor ch row col color s =
    elim (Bool-cases ((ch == newline) || (ch == carriage_return))) [
      | inl nothing ↦ rw nothing (refl, refl, refl)
      | inr printed ↦ rw printed (refl, refl, refl)
    ]

-- Where a character goes: a row that may be below the screen, and a column on it.
place-row : (ch : ℕ) (s : Console) → InBounds s → (place ch s).cursor_row ≤ console_height
unfolding place set_logical_cursor
place-row ch s inside = ground (arith, inside)

place-col : (ch : ℕ) (s : Console) → InBounds s → (place ch s).cursor_col < console_width
unfolding place set_logical_cursor
place-col ch s inside = ground (arith, inside)

make_room-row :
    (s : Console) → s.cursor_row ≤ console_height → (make_room s).cursor_row < console_height
unfolding make_room set_logical_cursor
make_room-row s low = elim (Bool-cases (s.cursor_row == console_height)) [
  | inl full ↦ rw full (omega (arith, (scroll_screen-SameCursor 1 s).0))
  | inr free ↦ rw free (ground arith)
]

make_room-col : (s : Console) → (make_room s).cursor_col ≡ s.cursor_col
unfolding make_room set_logical_cursor
make_room-col s = elim (Bool-cases (s.cursor_row == console_height)) [
  | inl full ↦ rw full ((scroll_screen-SameCursor 1 s).1)
  | inr free ↦ rw free refl
]

place-color : (ch : ℕ) (s : Console) → (place ch s).console_color ≡ s.console_color
unfolding place set_logical_cursor
place-color ch s = ground arith

make_room-color : (s : Console) → (make_room s).console_color ≡ s.console_color
unfolding make_room set_logical_cursor
make_room-color s = elim (Bool-cases (s.cursor_row == console_height)) [
  | inl full ↦ rw full ((scroll_screen-SameCursor 1 s).2)
  | inr free ↦ rw free refl
]

erase-InBounds : (s : Console) → InBounds s → InBounds (erase s)
unfolding erase set_logical_cursor
erase-InBounds s inside = elim (Bool-cases (s.cursor_col == 0)) [
  | inl start ↦ rw start (omega (arith, inside), omega arith)
  | inr later ↦ rw later (inside.0, omega (arith, inside))
]

-- Where `putbyte` prints.
abbrev pub room : ℕ → Console → Console
room ch s = make_room (place ch s)

room-row : (ch : ℕ) (s : Console) → InBounds s → (room ch s).cursor_row < console_height
room-row ch s inside = make_room-row (place ch s) (place-row ch s inside)

room-col : (ch : ℕ) (s : Console) → InBounds s → (room ch s).cursor_col < console_width
room-col ch s inside = omega (arith, make_room-col (place ch s), place-col ch s inside)

advance-InBounds :
    (ch : ℕ) (s : Console)
    → s.cursor_row < console_height
    → s.cursor_col < console_width
    → InBounds (advance ch s)
unfolding advance set_logical_cursor
advance-InBounds ch s row col = ground (arith, row, col)

-- What `putbyte` has written, before the cursor advances.
abbrev pub printed : ℕ → Console → Console
printed ch s = let t = room ch s in print_char ch t.cursor_row t.cursor_col t.console_color t

putbyte-advance :
    (ch : ℕ) (s : Console) → (ch == backspace) ≡ false → putbyte ch s ≡ advance ch (printed ch s)
unfolding putbyte
putbyte-advance ch s other = if-false (ch == backspace) (erase s) (advance ch (printed ch s)) other

putbyte-erase : (ch : ℕ) (s : Console) → (ch == backspace) ≡ true → putbyte ch s ≡ erase s
unfolding putbyte
putbyte-erase ch s back = if-true (ch == backspace) (erase s) (advance ch (printed ch s)) back

printed-row : (ch : ℕ) (s : Console) → (printed ch s).cursor_row ≡ (room ch s).cursor_row
printed-row ch s =
    (print_char-SameCursor ch (room ch s).cursor_row (room ch s).cursor_col
      (room ch s).console_color (room ch s)).0

printed-col : (ch : ℕ) (s : Console) → (printed ch s).cursor_col ≡ (room ch s).cursor_col
printed-col ch s =
    (print_char-SameCursor ch (room ch s).cursor_row (room ch s).cursor_col
      (room ch s).console_color (room ch s)).1

putbyte-InBounds : (ch : ℕ) (s : Console) → InBounds s → InBounds (putbyte ch s)
putbyte-InBounds ch s inside = elim (Bool-cases (ch == backspace)) [
  | inl back ↦ rw (putbyte-erase ch s back) (erase-InBounds s inside)
  | inr other ↦ rw (putbyte-advance ch s other) (
      advance-InBounds ch (printed ch s) (omega (arith, printed-row ch s, room-row ch s inside))
        (omega (arith, printed-col ch s, room-col ch s inside)))
]

-- Whatever is printed, a cursor on the screen or directly behind the last column of a row of it
-- is there again afterwards.
pub putbytes-InBounds : (cs : List ℕ) (s : Console) → InBounds s → InBounds (putbytes cs s)
unfolding putbytes
putbytes-InBounds [] s inside = inside
putbytes-InBounds (ch ∷ cs) s inside =
    putbytes-InBounds cs (putbyte ch s) (putbyte-InBounds ch s inside)

advance_printable :
    (ch : ℕ) (s : Console)
    → (ch == newline) ≡ false
    → (ch == carriage_return) ≡ false
    → (ch == backspace) ≡ false
    → advance ch s ≡ set_logical_cursor s.cursor_row (s.cursor_col + 1) s
unfolding advance
advance_printable ch s a b c = rw (a, b, c) refl

on_screen :
    (row col : ℕ) → row < console_height → col < console_width → out_of_screen row col ≡ false
on_screen row col r c = ground (arith, r, c)

print_char-get_char :
    (ch row col color : ℕ) (s : Console)
    → row < console_height
    → col < console_width
    → (ch == newline) ≡ false
    → (ch == carriage_return) ≡ false
    → (get_char row col (print_char ch row col color s) ≡ ch)
      × (get_color row col (print_char ch row col color s) ≡ color % 256)
unfolding get_char get_color print_char
print_char-get_char ch row col color s r c line ret =
    rw (on_screen row col r c, line, ret) (ground arith, ground arith)

room-color : (ch : ℕ) (s : Console) → (room ch s).console_color ≡ s.console_color
room-color ch s = make_room-color (place ch s) ∙ place-color ch s

-- A character other than newline, carriage return and backspace that is printed with a cursor on
-- the screen, or directly behind the last column of a row, is what stands before the cursor
-- afterwards, in the current colour.
putbyte-get_char :
    (ch : ℕ) (s : Console)
    → InBounds s
    → (ch == newline) ≡ false
    → (ch == carriage_return) ≡ false
    → (ch == backspace) ≡ false
    → (get_char (putbyte ch s).cursor_row ((putbyte ch s).cursor_col - 1) (putbyte ch s) ≡ ch)
      × (get_color (putbyte ch s).cursor_row ((putbyte ch s).cursor_col - 1) (putbyte ch s)
          ≡ s.console_color % 256)
unfolding get_char get_color set_logical_cursor
putbyte-get_char ch s inside line ret back =
    let before : (printed ch s).cursor_col + 1 - 1 ≡ (room ch s).cursor_col =
      omega (arith, printed-col ch s) in
    rw (putbyte-advance ch s back, advance_printable ch (printed ch s) line ret back)
      (let t = room ch s in
        let (char, color) =
          print_char-get_char ch t.cursor_row t.cursor_col t.console_color t (room-row ch s inside)
            (room-col ch s inside) line ret in
        rw (printed-row ch s, before) (char, color ∙ ap (λ c. c % 256) (room-color ch s)))

-- On a screen whose cursor is hidden, set_cursor to a place on the screen shows the cursor there.
hide_cursor-set_cursor :
    (row col : ℕ) (s : Console)
    → row < console_height
    → col < console_width
    → set_cursor row col (hide_cursor s)
      ≡ (success, record s { cursor_row = row; cursor_col = col; hardware = row * 80 + col })
unfolding hide_cursor set_hardware_cursor set_cursor set_logical_cursor is_cursor_hidden
hide_cursor-set_cursor row col s r c =
    let shown : (leb console_height row || leb console_width col) ≡ false = ground (arith, r, c) in
    let small : (row * 80 + col) % 2 ^ 16 ≡ row * 80 + col = omega (arith, r, c) in
    rw (on_screen row col r c, shown, small) refl
