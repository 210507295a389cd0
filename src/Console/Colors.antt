-- ===== src/Console/Colors.antt =====
-- Colours of the terminal.
use p.Base.{ℕ, ◌%◌, ◌≡◌, refl, ltb, false, Bool-cases, inl, inr}
use p.Console.Defs.{Console, success, is_minus_one, is_valid_color, set_term_color}

never : (color : ℕ) → is_minus_one (is_valid_color color) ≡ false
unfolding is_valid_color
never color = elim (Bool-cases (ltb 8 (color % 16))) [
  | inl bad ↦ rw bad refl
  | inr good ↦ rw good refl
]

-- set_term_color succeeds for every color and takes the low byte of it, those that is_valid_color
-- refuses included.
set_term_color-is_valid_color :
    (color : ℕ) (s : Console)
    → set_term_color color s ≡ (success, record s { console_color = color % 256 })
unfolding set_term_color
set_term_color-is_valid_color color s = rw (never color) refl
