-- ===== src/Console/Tests.antt =====
-- Tests of the console at a concrete screen.
use p.Base.{◌≡◌, [], ◌∷◌, arith}
use p.Console.Defs.{Console, console_mem_end, putbytes, set_default_color, scroll_screen}
use p.Console.Cursor.{InBounds, putbytes-InBounds}
use p.Console.Scroll.{scroll_screen_lem}

-- Two bytes before the end of the last row, with 7 in all of memory.
abbrev corner : Console
corner = set_default_color (record {
  cursor_row = 24;
  cursor_col = 79;
  console_color = 0;
  empty_char = λ _. 0;
  mem = λ _. 7;
  hardware = 0;
})

putbytes-InBounds_example : InBounds (putbytes (97 ∷ 98 ∷ 10 ∷ 8 ∷ []) corner)
unfolding set_default_color
putbytes-InBounds_example =
    putbytes-InBounds (97 ∷ 98 ∷ 10 ∷ 8 ∷ []) corner (omega arith, omega arith)

-- The byte behind the memory of the console is overwritten.
scroll_screen_lem_example : (scroll_screen 1 corner).mem console_mem_end ≡ 32
unfolding set_default_color
scroll_screen_lem_example = scroll_screen_lem 1 console_mem_end corner (omega arith) (omega arith)
