-- ===== src/Keyboard/Window.antt =====
-- The characters between `start_ptr` and `end_ptr` as a queue.
use p.Base.{
  ℕ, ◌+◌, ◌%◌, ◌<◌, ◌≡◌, ◌≢◌, refl, sym, subst, List, [], ◌∷◌, ◌++◌, length, length-append, update,
  arith, ≢→ne, ≡→eq,
}
use p.Keyboard.Defs.{Keyboard, buffer_size, next, backspace, add_keystroke}

-- The entries of the buffer from `i` on, around its end, are the characters of a list.
abbrev pub Items : (ℕ → ℕ) → ℕ → List ℕ → Type 0
Items buf i [] = Unit
Items buf i (x ∷ q) = (buf i ≡ x) × Items buf (next i) q

pub record Holds (s : Keyboard) (q : List ℕ) : Type 0 where
  pub start_in : s.start_ptr < buffer_size
  pub end_at : s.end_ptr ≡ (s.start_ptr + length q) % buffer_size
  pub room : length q < buffer_size
  pub items : Items s.key_buf s.start_ptr q

Items-update :
    (buf : ℕ → ℕ) (c d i : ℕ) (q : List ℕ) (e : ℕ)
    → i < buffer_size
    → length q + d < buffer_size
    → e ≡ (i + length q + d) % buffer_size
    → Items buf i q
    → Items (update buf e c) i q
Items-update buf c d i [] e a b h k = tt
Items-update buf c d i (x ∷ q) e a b h k = (
  rw (≢→ne i e (λ same. omega arith)) k.0,
  Items-update buf c d (next i) q e (omega arith) (omega arith) (omega arith) k.1,
)

Items-snoc :
    (buf : ℕ → ℕ) (c i : ℕ) (q : List ℕ)
    → i < buffer_size
    → buf ((i + length q) % buffer_size) ≡ c
    → Items buf i q
    → Items buf i (q ++ c ∷ [])
Items-snoc buf c i [] a h k = (subst (λ j. buf j ≡ c) (omega arith) h, tt)
Items-snoc buf c i (x ∷ q) a h k =
    (k.0, Items-snoc buf c (next i) q (omega arith) (subst (λ j. buf j ≡ c) (omega arith) h) k.1)

Items-init : (buf : ℕ → ℕ) (x i : ℕ) (q : List ℕ) → Items buf i (q ++ x ∷ []) → Items buf i q
Items-init buf x i [] k = tt
Items-init buf x i (y ∷ q) k = (k.0, Items-init buf x (next i) q k.1)

-- A character other than a backspace, typed while the buffer has room, comes behind the
-- characters that the buffer holds, and is echoed.
pub add_keystroke-appends :
    (s : Keyboard) (q : List ℕ) (c : ℕ)
    → Holds s q
    → c ≢ backspace
    → length q + 1 < buffer_size
    → Holds (add_keystroke c s) (q ++ c ∷ []) × ((add_keystroke c s).out ≡ s.out ++ c ∷ [])
unfolding add_keystroke
add_keystroke-appends s q c v ne room =
    let a = v.start_in in
    let b = v.end_at in
    rw (≢→ne (next s.end_ptr) s.start_ptr (λ e. omega arith)) (
      rw (≢→ne c backspace ne) (
        record {
          start_in = v.start_in;
          end_at = omega (arith, length-append q (c ∷ []));
          room = omega (arith, length-append q (c ∷ []));
          items =
              Items-snoc (update s.key_buf s.end_ptr c) c s.start_ptr q v.start_in
                (rw (≡→eq ((s.start_ptr + length q) % buffer_size) s.end_ptr (sym b)) refl)
                (Items-update s.key_buf c 0 s.start_ptr q s.end_ptr v.start_in (omega arith)
                  (omega arith) v.items);
        },
        refl,
      ))

-- A backspace, typed while the buffer holds a character and is not full, takes out the last
-- character, and is echoed.
add_keystroke-deletes :
    (s : Keyboard) (q : List ℕ) (x : ℕ)
    → Holds s (q ++ x ∷ [])
    → length q + 2 < buffer_size
    → Holds (add_keystroke backspace s) q
      × ((add_keystroke backspace s).out ≡ s.out ++ backspace ∷ [])
unfolding add_keystroke
add_keystroke-deletes s q x v room =
    let a = v.start_in in
    let b = v.end_at in
    let n = length-append q (x ∷ []) in
    rw (≢→ne (next s.end_ptr) s.start_ptr (λ e. omega arith)) (
      rw (≢→ne s.end_ptr s.start_ptr (λ e. omega arith)) (
        record {
          start_in = v.start_in;
          end_at = ground arith;
          room = omega arith;
          items =
              Items-update s.key_buf backspace 1 s.start_ptr q s.end_ptr v.start_in (omega arith)
                (omega arith) (Items-init s.key_buf x s.start_ptr q v.items);
        },
        refl,
      ))
