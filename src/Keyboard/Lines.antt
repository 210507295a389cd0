-- ===== src/Keyboard/Lines.antt =====
-- Reading a line: what `get_nextline` returns and leaves.
use p.Base.{
  ℕ, zero, suc, ◌+◌, ◌-◌, ◌%◌, ◌<◌, ◌≤◌, ◌≡◌, refl, ap, ◌∙◌, subst, ◌==◌, leb, Bool-cases, inl, inr,
  Option, none, some, List, [], ◌∷◌, ◌++◌, take, length, length-append, arith, ≢→ne, ≡→eq, if-false,
}
use p.Keyboard.Defs.{
  Keyboard, got, inval, read_to, buffer_size, newline, next, copy_line, update_start_ptr,
  find_newline, update_newline_ptr, with_newline, answer, finish, get_nextline,
}
use p.Keyboard.Window.{Holds, Items}

-- The state after `n` characters are read.
abbrev moved : Keyboard → ℕ → Keyboard
moved s n = record s { start_ptr = (s.start_ptr + n) % buffer_size }

Items-drop :
    (buf : ℕ → ℕ) (i : ℕ) (q r : List ℕ)
    → i < buffer_size
    → Items buf i (q ++ r)
    → Items buf ((i + length q) % buffer_size) r
Items-drop buf i [] r a k = subst (λ j. Items buf j r) (omega arith) k
Items-drop buf i (x ∷ q) r a k =
    subst (λ j. Items buf j r) (omega arith) (Items-drop buf (next i) q r (omega arith) k.1)

unmoved : (s : Keyboard) → s.start_ptr < buffer_size → s.start_ptr ≡ (s.start_ptr + 0) % buffer_size
unmoved s a = omega arith

one_more : (i m : ℕ) → (next i + m) % buffer_size ≡ (i + suc m) % buffer_size
one_more i m = omega arith

length-take : (n : ℕ) (q : List ℕ) → length (take n q) ≤ length q
length-take zero q = omega arith
length-take (suc n) [] = omega arith
length-take (suc n) (x ∷ q) = omega (arith, length-take n q)

Items-front : (buf : ℕ → ℕ) (i : ℕ) (q r : List ℕ) → Items buf i (q ++ r) → Items buf i q
Items-front buf i [] r k = tt
Items-front buf i (x ∷ q) r k = (k.0, Items-front buf (next i) q r k.1)

update_start_ptr_lem :
    (j fuel n : ℕ) (s : Keyboard)
    → s.start_ptr < buffer_size
    → n < fuel
    → n < buffer_size
    → j ≡ (s.start_ptr + n) % buffer_size
    → update_start_ptr j fuel s ≡ some (record s { start_ptr = next j })
unfolding update_start_ptr
update_start_ptr_lem j zero n s a f b e = absurd (omega arith)
update_start_ptr_lem j (suc fuel) zero s a f b e =
    rw (≡→eq s.start_ptr j (omega arith)) (λ k. some (record s { start_ptr = next (at_j k) }))
  where
    at_j : s.start_ptr ≡ j
    at_j = omega arith
update_start_ptr_lem j (suc fuel) (suc n) s a f b e =
    rw (≢→ne s.start_ptr j (λ same. omega arith)) (
      update_start_ptr_lem j fuel n (record s { start_ptr = next s.start_ptr }) (omega arith)
        (omega arith) (omega arith) (omega arith))

-- A search from `n` places before `end_ptr` ends there at the latest.
find_newline_lem :
    (fuel n i : ℕ) (s : Keyboard)
    → n < fuel
    → n < buffer_size
    → i < buffer_size
    → s.end_ptr ≡ (i + n) % buffer_size
    → (r : Option ℕ) × (find_newline fuel i s ≡ some r)
unfolding find_newline
find_newline_lem zero n i s f b a e = absurd (omega arith)
find_newline_lem (suc fuel) zero i s f b a e = elim (Bool-cases (s.key_buf i == newline)) [
  | inl z ↦ (some i, rw z refl)
  | inr z ↦ (none, rw z (rw (≡→eq i s.end_ptr (omega arith)) refl))
]
find_newline_lem (suc fuel) (suc n) i s f b a e = elim (Bool-cases (s.key_buf i == newline)) [
  | inl z ↦ (some i, rw z refl)
  | inr z ↦ rw z (
      rw (≢→ne i s.end_ptr (λ same. omega arith)) (
        find_newline_lem fuel n (next i) s (omega arith) (omega arith) (omega arith) (omega arith)))
]

copy_line_lem :
    (j n : ℕ) (line : List ℕ) (s : Keyboard)
    → s.start_ptr < buffer_size
    → length line < buffer_size
    → j ≡ (s.start_ptr + length line) % buffer_size
    → Items s.key_buf s.start_ptr line
    → copy_line j n s ≡ (take n line, moved s (length (take n line)))
unfolding copy_line
copy_line_lem j zero line s a b e k = λ i. ([], record s { start_ptr = unmoved s a i })
copy_line_lem j (suc n) [] s a b e k =
    rw (≡→eq s.start_ptr j (omega arith)) (λ i. ([], record s { start_ptr = unmoved s a i }))
copy_line_lem j (suc n) (x ∷ line) s a b e k =
    let ih =
      copy_line_lem j n line (record s { start_ptr = next s.start_ptr }) (omega arith) (omega arith)
        (omega arith) k.1 in
    rw (≢→ne s.start_ptr j (λ same. omega arith)) (
      (λ i. (k.0 i ∷ (ih i).0, (ih i).1)) ∙ (λ i.
        (x ∷ take n line, record s { start_ptr = one_more s.start_ptr (length (take n line)) i })))

-- When the buffer holds a line, its newline, at which newline_ptr stands, and what follows,
-- get_nextline with a length below the size of the buffer, and with more fuel than that size,
-- ends and returns the line cut to that length; the buffer then holds what follows.
pub get_nextline_lem :
    (fuel len : ℕ) (s : Keyboard) (line rest : List ℕ)
    → Holds s (line ++ newline ∷ rest)
    → s.newline_ptr ≡ some ((s.start_ptr + length line) % buffer_size)
    → len < buffer_size
    → buffer_size < fuel
    → (t : Keyboard) × (get_nextline fuel len s ≡ some (got (take len line), t))
      × Holds t rest
      × (t.out ≡ s.out)
unfolding get_nextline read_to finish update_newline_ptr
get_nextline_lem fuel len s line rest v e small enough =
    let n = length-append line (newline ∷ rest) in
    let a = v.start_in in
    let b = v.end_at in
    let c = v.room in
    let m = length-take len line in
    let j = (s.start_ptr + length line) % buffer_size in
    let t = record s { start_ptr = next j } in
    let copied =
      copy_line_lem j len line s a (omega arith) refl
        (Items-front s.key_buf s.start_ptr line (newline ∷ rest) v.items) in
    let (r, found) =
      find_newline_lem fuel (length rest) (next j) t (omega arith) (omega arith) (omega arith)
        (omega arith) in
    (
      record t { newline_ptr = r },
      if-false (leb buffer_size len) (some (inval, s)) (read_to fuel len s.newline_ptr s)
            (ground arith)
          ∙ ap (λ o. read_to fuel len o s) e
          ∙ (λ k. finish fuel j (copied k).0 (update_start_ptr j fuel (copied k).1))
          ∙ ap (finish fuel j (take len line)) (
              update_start_ptr_lem j fuel (length line - length (take len line))
                (moved s (length (take len line))) (omega arith) (omega arith) (omega arith)
                (omega arith))
          ∙ ap (λ o. answer (take len line) (with_newline t o)) found,
      record {
        start_in = omega arith;
        end_at = omega arith;
        room = omega arith;
        items = (Items-drop s.key_buf s.start_ptr line (newline ∷ rest) a v.items).1;
      },
      refl,
    )
