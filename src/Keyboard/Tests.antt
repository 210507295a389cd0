-- ===== src/Keyboard/Tests.antt =====
-- A buffer that holds "hi", a newline and "x" around its end.
use p.Base.{◌≡◌, refl, ◌==◌, if◌then◌else◌, [], ◌∷◌, some, arith}
use p.Keyboard.Defs.{Keyboard, get_nextchar}
use p.Keyboard.Window.{Holds}

abbrev typed : Keyboard
typed = record {
  key_buf = λ i.
      if i == 1998
      then 104
      else if i == 1999
      then 105
      else if i == 0
      then 10
      else if i == 1
      then 120
      else 0;
  start_ptr = 1998;
  end_ptr = 2;
  newline_ptr = some 0;
  out = [];
}

typed-Holds : Holds typed (104 ∷ 105 ∷ 10 ∷ 120 ∷ [])
typed-Holds = record {
  start_in = omega arith;
  end_at = refl;
  room = omega arith;
  items = (refl, (refl, (refl, (refl, tt))));
}

-- The pointer of `get_nextchar` leaves the buffer.
runs_out : (get_nextchar (record typed { start_ptr = 1999 })).1.start_ptr ≡ 2000
unfolding get_nextchar
runs_out = refl
