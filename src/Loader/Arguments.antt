-- ===== src/Loader/Arguments.antt =====
-- What a new program finds on its stack.
use p.Base.{
  ℕ, ◌+◌, ◌-◌, ◌*◌, ◌^◌, ◌≤◌, ◌<◌, ◌≡◌, inl, inr, ap, ◌∙◌, sym, true, some, List, [], ◌∷◌, ◌++◌,
  length, subst, arith,
}
use p.Vm.{stack_start, default_stack_size}
use p.Loader.Memory.{word_at, StringAt, WordsAt, SameBut, SameBut-then, AreWords}
use p.Loader.Args.{push_strings, push_frame, copy_user_args}
use p.Loader.Strings.{bytes_of, PointTo, Strings, push_strings-Strings}
use p.Loader.Frame.{
  framed, empty, push_frame_lem, framed-SameBut, empty_string, pointers-WordsAt, frame_words, argc,
}

-- An array of pointers to the strings, and one more to an empty string.
abbrev pub ArgsAt : (ℕ → ℕ) → (argv : ℕ) → List (List ℕ) → Type 0
ArgsAt m argv [] = StringAt m (word_at m argv) []
ArgsAt m argv (s ∷ ss) = StringAt m (word_at m argv) s × ArgsAt m (argv + 4) ss

PointTo-ArgsAt :
    (m : ℕ → ℕ) (argv end : ℕ) (pointers : List ℕ) (ss : List (List ℕ))
    → PointTo m pointers ss
    → WordsAt m argv (pointers ++ end ∷ [])
    → m end ≡ 0
    → ArgsAt m argv ss
PointTo-ArgsAt m argv end [] [] points words ended = ap m (words.0) ∙ ended
PointTo-ArgsAt m argv end [] (s ∷ ss) points words ended = absurd points
PointTo-ArgsAt m argv end (p ∷ ps) [] points words ended = absurd points
PointTo-ArgsAt m argv end (p ∷ ps) (s ∷ ss) (string, points) (word, words) ended = (
  subst (λ q. StringAt m q s) (sym word) string,
  PointTo-ArgsAt m (argv + 4) end ps ss points words ended,
)

AreWords-snoc : (ws : List ℕ) (w : ℕ) → AreWords ws → w < 2 ^ 32 → AreWords (ws ++ w ∷ [])
AreWords-snoc [] w words small = (small, tt)
AreWords-snoc (x ∷ ws) w (first, words) small = (first, AreWords-snoc ws w words small)

-- When smalloc gives memory, the number of arguments is below 256, and the strings, their
-- pointers and the frame end at the start of the stack, on bytes that are 0, then the stack
-- pointer that copy_user_args returns has above it the number of arguments, a pointer to an array
-- of pointers to exactly these strings with one more to an empty string, and the two ends of the
-- stack; bytes outside are unchanged.
pub copy_user_args-ArgsAt :
    (sp : ℕ) (args : List (List ℕ)) (m : ℕ → ℕ)
    → sp + 20 + 4 * (length args + 1) + 1 + bytes_of args ≡ stack_start
    → length args < 256
    → ((a : ℕ) → sp ≤ a → a < stack_start → m a ≡ 0)
    → (m' : ℕ → ℕ) × (copy_user_args true args m ≡ some (sp, m'))
      × (word_at m' (sp + 4) ≡ length args)
      × ArgsAt m' (word_at m' (sp + 8)) args
      × (word_at m' (sp + 12) ≡ stack_start)
      × (word_at m' (sp + 16) ≡ stack_start - default_stack_size)
      × SameBut sp stack_start m m'
unfolding copy_user_args
copy_user_args-ArgsAt sp args m fits few clear =
    let low : ℕ = sp + 20 + 4 * (length args + 1) + 1 in
    let strings : Strings low stack_start args m (push_strings args stack_start m) =
      subst (λ high. Strings low high args m (push_strings args high m)) fits
        (push_strings-Strings low args m (omega arith)) in
    let (pointers, top, m1) = push_strings args stack_start m in
    let m' = framed sp (length args) pointers m1 in
    let outside_strings : (a : ℕ) → sp ≤ a → a < low → m1 a ≡ 0 =
      λ a from to. strings.kept a (inl to) ∙ clear a from (omega arith) in
    let frame : SameBut sp low m1 m' = framed-SameBut sp (length args) pointers m1 strings.count in
    let (at_argv, at_high, at_low) =
      frame_words sp (length args) pointers m1 strings.count (omega arith) in
    (
      m',
      ap (λ t. some (push_frame (length args) (pointers, t, m1))) strings.top
          ∙ ap some (push_frame_lem sp (length args) pointers m1 (omega arith)),
      argc sp (length args) pointers m1 strings.count few (
        outside_strings (sp + 4 + 1) (omega arith) (omega arith),
        outside_strings (sp + 4 + 2) (omega arith) (omega arith),
        outside_strings (sp + 4 + 3) (omega arith) (omega arith),
      ),
      subst (λ argv. ArgsAt m' argv args) (sym at_argv)
          (PointTo-ArgsAt m' (sp + 20) (empty sp (length args) pointers m1) pointers args
            (strings.inside m' (λ a from to. frame a (inr from)))
            (pointers-WordsAt sp (length args) pointers m1 strings.count (
              AreWords-snoc pointers (empty sp (length args) pointers m1) strings.words
                (omega arith)))
            (empty_string sp (length args) pointers m1 strings.count)),
      at_high,
      at_low,
      SameBut-then sp stack_start (omega arith, omega arith, omega arith, omega arith) strings.kept
          frame,
    )
