-- ===== src/Console/Defs.antt =====
-- The cursor, the colour and the bytes of video memory, and the functions on them. Rows, columns and
-- colours that a caller gives are bit patterns of ints, negative from 2^31 on; characters are bytes.
use p.Base.{
  memcpy, ℕ, zero, suc, ◌+◌, ◌-◌, ◌*◌, ◌%◌, ◌^◌, Bool, false, ◌&&◌, ◌||◌, not, ◌==◌, ltb, leb,
  if◌then◌else◌, List, [], ◌∷◌, update,
}

abbrev pub console_width : ℕ
console_width = 80

abbrev pub console_height : ℕ
console_height = 25

abbrev pub console_mem_base : ℕ
console_mem_base = 0xb8000

abbrev pub console_mem_end : ℕ
console_mem_end = console_mem_base + console_height * console_width * 2

-- `hardware` is the position in the registers of the VGA device. The logical cursor is never
-- negative.
pub record Console : Type 0 where
  pub cursor_row : ℕ
  pub cursor_col : ℕ
  pub console_color : ℕ
  pub empty_char : ℕ → ℕ
  pub mem : ℕ → ℕ
  pub hardware : ℕ

pub data Code : Type 0 where
  success err_inval : Code

-- A row or column below 0 becomes 0, as `-` on ℕ has it at the calls.
unfoldable pub set_logical_cursor : (row col : ℕ) → Console → Console
set_logical_cursor row col s = record s { cursor_row = row; cursor_col = col }

-- `num` cells of two bytes each
unfoldable pub empty_fill : (addr num : ℕ) → Console → Console
empty_fill addr zero s = s
empty_fill addr (suc i) s =
    let t = empty_fill addr i s in
    record t {
      mem =
          update (update t.mem (addr + i * 2) (t.empty_char 0)) (addr + i * 2 + 1) (t.empty_char 1);
    }

unfoldable pub set_hardware_cursor : (row col : ℕ) → Console → Console
set_hardware_cursor row col s = record s { hardware = (row * 80 + col) % 2 ^ 16 }

-- A nibble is never below 0 or above 0xf.
unfoldable pub is_valid_color : (color : ℕ) → Code
is_valid_color color = if ltb 8 (color % 16) then Code.err_inval else Code.success

-- The callers compare the answer with -1, and ERR_INVAL is -2.
abbrev pub is_minus_one : Code → Bool
is_minus_one Code.success = false
is_minus_one Code.err_inval = false

abbrev pub newline : ℕ
newline = 10

abbrev pub carriage_return : ℕ
carriage_return = 13

abbrev pub backspace : ℕ
backspace = 8

abbrev pub cell : (row col : ℕ) → ℕ
cell row col = console_mem_base + 2 * (row * console_width + col)

unfoldable pub print_char : (ch row col color : ℕ) → Console → Console
print_char ch row col color s =
    if (ch == newline) || (ch == carriage_return)
    then s
    else record s { mem = update (update s.mem (cell row col) ch) (cell row col + 1) (color % 256) }

-- The two copies, up through `buf`, which is filled for each scroll.
unfoldable pub move_up : (offset : ℕ) → Console → Console
move_up offset s =
    let n = console_height * console_width * 2 - offset in
    let buf = memcpy (λ _. 0) s.mem 0 (console_mem_base + offset) n in
    record s { mem = memcpy s.mem buf console_mem_base 0 n }

-- `empty_fill` gets the number of bytes as its number of cells.
unfoldable pub scroll_screen : (num_rows : ℕ) → Console → Console
unfolding empty_fill move_up
scroll_screen num_rows s =
    if (num_rows == 0) || leb (2 ^ 31) num_rows || leb console_height num_rows
    then s
    else let offset = num_rows * console_width * 2 in
      empty_fill (console_mem_end - offset) offset (move_up offset s)

unfoldable pub is_cursor_hidden : Console → Bool
is_cursor_hidden s = leb console_height s.cursor_row || leb console_width s.cursor_col

abbrev pub out_of_screen : (row col : ℕ) → Bool
out_of_screen row col =
    leb (2 ^ 31) row || leb console_height row || leb (2 ^ 31) col || leb console_width col

unfoldable pub set_cursor : (row col : ℕ) → Console → Code × Console
unfolding set_logical_cursor set_hardware_cursor is_cursor_hidden
set_cursor row col s =
    if out_of_screen row col
    then (Code.err_inval, s)
    else let t = set_logical_cursor row col s in
      if is_cursor_hidden t
      then (Code.success, t)
      else (Code.success, set_hardware_cursor row col t)

-- The `switch` of `putbyte`, but for backspace.
unfoldable pub place : (ch : ℕ) → Console → Console
unfolding set_logical_cursor
place ch s =
    if ch == newline
    then set_logical_cursor (s.cursor_row + 1) 0 s
    else if ch == carriage_return
    then set_logical_cursor s.cursor_row 0 s
    else if s.cursor_col == console_width
    then set_logical_cursor (s.cursor_row + 1) 0 s
    else s

unfoldable pub make_room : Console → Console
unfolding set_logical_cursor scroll_screen
make_room s =
    if s.cursor_row == console_height
    then (let t = scroll_screen 1 s in set_logical_cursor (t.cursor_row - 1) t.cursor_col t)
    else s

unfoldable pub advance : (ch : ℕ) → Console → Console
unfolding set_logical_cursor
advance ch s =
    if not (ch == newline) && (not (ch == carriage_return) && not (ch == backspace))
    then set_logical_cursor s.cursor_row (s.cursor_col + 1) s
    else s

unfoldable pub erase : Console → Console
unfolding set_logical_cursor print_char
erase s =
    let t =
      if s.cursor_col == 0
      then set_logical_cursor (s.cursor_row - 1) (console_width - 1) s
      else set_logical_cursor s.cursor_row (s.cursor_col - 1) s in
    print_char 32 t.cursor_row t.cursor_col t.console_color t

unfoldable pub putbyte : (ch : ℕ) → Console → Console
unfolding place make_room advance erase print_char
putbyte ch s =
    if ch == backspace
    then erase s
    else let t = make_room (place ch s) in
      advance ch (print_char ch t.cursor_row t.cursor_col t.console_color t)

-- The string is not NULL, and the list is its first `len` characters.
unfoldable pub putbytes : List ℕ → Console → Console
unfolding putbyte
putbytes [] s = s
putbytes (ch ∷ cs) s = putbytes cs (putbyte ch s)

unfoldable pub set_term_color : (color : ℕ) → Console → Code × Console
unfolding is_valid_color
set_term_color color s =
    if is_minus_one (is_valid_color color)
    then (Code.err_inval, s)
    else (Code.success, record s { console_color = color % 256 })

-- A `char` goes back to an int with its sign.
unfoldable pub get_term_color : Console → ℕ
get_term_color s =
    if ltb s.console_color 128 then s.console_color else s.console_color + (2 ^ 32 - 256)

unfoldable pub hide_cursor : Console → Console
unfolding set_hardware_cursor
hide_cursor s = set_hardware_cursor (console_height + 1) (console_width + 1) s

unfoldable pub show_cursor : Console → Console
unfolding set_hardware_cursor
show_cursor s = set_hardware_cursor s.cursor_row s.cursor_col s

unfoldable pub clear_console : Console → Console
unfolding empty_fill set_cursor
clear_console s =
    (set_cursor 0 0 (empty_fill console_mem_base (console_height * console_width) s)).1

unfoldable pub draw_char : (row col ch color : ℕ) → Console → Console
unfolding is_valid_color print_char
draw_char row col ch color s =
    if out_of_screen row col || is_minus_one (is_valid_color color)
    then s
    else print_char (ch % 256) row col color s

unfoldable pub get_char : (row col : ℕ) → Console → ℕ
get_char row col s = if out_of_screen row col then 0 else s.mem (cell row col)

unfoldable pub get_color : (row col : ℕ) → Console → ℕ
get_color row col s = if out_of_screen row col then 0 else s.mem (cell row col + 1)

unfoldable pub get_cursor : Console → ℕ × ℕ
get_cursor s = (s.cursor_row, s.cursor_col)

-- kern/kernel.c: white on black
unfoldable pub set_default_color : Console → Console
set_default_color s = record s {
  console_color = 0xf;
  empty_char = update (update s.empty_char 0 32) 1 0xf;
}
