-- ===== src/Console/Scroll.antt =====
-- What scrolling leaves in memory.
use p.Base.{
  ℕ, zero, suc, ◌+◌, ◌-◌, ◌*◌, ◌%◌, ◌^◌, ◌≤◌, ◌<◌, ◌≡◌, refl, ◌∙◌, false, ◌&&◌, ◌||◌, ◌==◌, ltb,
  leb, if◌then◌else◌, arith,
}
use p.Console.Defs.{
  Console, console_width, console_height, console_mem_base, console_mem_end, empty_fill, move_up,
  scroll_screen,
}

-- The bytes of `num` empty cells from `addr` on.
abbrev pub blank : (Console) → (addr num : ℕ) → ℕ → ℕ
blank s addr num a =
    if leb addr a && ltb a (addr + num * 2)
    then (if (a - addr) % 2 == 0 then s.empty_char 0 else s.empty_char 1)
    else s.mem a

empty_fill-empty_char :
    (addr num i : ℕ) (s : Console) → (empty_fill addr num s).empty_char i ≡ s.empty_char i
unfolding empty_fill
empty_fill-empty_char addr zero i s = refl
empty_fill-empty_char addr (suc num) i s = empty_fill-empty_char addr num i s

empty_fill_lem : (addr num a : ℕ) (s : Console) → (empty_fill addr num s).mem a ≡ blank s addr num a
unfolding empty_fill
empty_fill_lem addr zero a s = ground arith
empty_fill_lem addr (suc num) a s = ground (
  arith,
  empty_fill_lem addr num a s,
  empty_fill-empty_char addr num 0 s,
  empty_fill-empty_char addr num 1 s,
)

-- The memory after a scroll by `offset` bytes.
abbrev pub scrolled : (offset : ℕ) → Console → ℕ → ℕ
scrolled offset s a =
    if ltb a console_mem_base
    then s.mem a
    else if ltb a (console_mem_end - offset)
    then s.mem (a + offset)
    else if ltb a (console_mem_end + offset)
    then (if a % 2 == 0 then s.empty_char 0 else s.empty_char 1)
    else s.mem a

move_up_lem :
    (offset a : ℕ) (s : Console)
    → offset % 2 ≡ 0
    → offset ≤ 4000
    → blank (move_up offset s) (console_mem_end - offset) offset a ≡ scrolled offset s a
unfolding move_up
move_up_lem offset a s even fits = ground (arith, even, fits)

-- A scroll by 1 to 24 rows moves each later row up and blanks the rows at the bottom, and it
-- writes blanks into as many bytes behind the memory of the screen as these rows have; no other
-- byte changes.
pub scroll_screen_lem :
    (n a : ℕ) (s : Console)
    → 0 < n
    → n < console_height
    → (scroll_screen n s).mem a ≡ scrolled (n * console_width * 2) s a
unfolding scroll_screen
scroll_screen_lem n a s pos small =
    let offset = n * console_width * 2 in
    let moves : ((n == 0) || leb (2 ^ 31) n || leb console_height n) ≡ false =
      ground (arith, pos, small) in
    rw moves (
      empty_fill_lem (console_mem_end - offset) offset a (move_up offset s)
      ∙ move_up_lem offset a s (omega arith) (omega arith))
