-- ===== src/Loader/Frame.antt =====
-- The words that a new program finds at the top of its stack.
use p.Base.{
  ℕ, ◌+◌, ◌-◌, ◌*◌, ◌%◌, ◌^◌, ◌<◌, ◌≡◌, inl, inr, refl, ◌∙◌, List, [], ◌∷◌, ◌++◌, length,
  length-append, update, subst, arith,
}
use p.Vm.{stack_start, default_stack_size}
use p.Loader.Memory.{
  put_word, put_words, word_at, WordsAt, SameBut, SameBut-then, AreWords, word_at-put_word,
  put_word-SameBut, put_words-SameBut, word_at-same, WordsAt-same, put_words-WordsAt,
}
use p.Loader.Args.{back, push_frame}
use p.Loader.Strings.{back-sum}

updated : (m : ℕ → ℕ) (p b : ℕ) → update m p b p ≡ b
updated m p b = ground arith

update-SameBut : (m : ℕ → ℕ) (p b : ℕ) → SameBut p (p + 1) m (update m p b)
update-SameBut m p b a (inl low) = ground arith
update-SameBut m p b a (inr high) = ground arith

-- The two stores of a byte.
argc-SameBut : (m : ℕ → ℕ) (p b : ℕ) → SameBut p (p + 8) m (update (update m (p + 4) b) p 0)
argc-SameBut m p b a (inl low) = ground arith
argc-SameBut m p b a (inr high) = ground arith

argc-word_at :
    (m : ℕ → ℕ) (p b : ℕ)
    → b < 256
    → (m (p + 4 + 1) ≡ 0) × (m (p + 4 + 2) ≡ 0) × (m (p + 4 + 3) ≡ 0)
    → word_at (update (update m (p + 4) (b % 256)) p 0) (p + 4) ≡ b
argc-word_at m p b small clear =
    let m' = update (update m (p + 4) (b % 256)) p 0 in
    let first : m' (p + 4) ≡ b = ground arith in
    let second : m' (p + 4 + 1) ≡ 0 = ground arith in
    let third : m' (p + 4 + 2) ≡ 0 = ground arith in
    let fourth : m' (p + 4 + 3) ≡ 0 = ground arith in omega (arith, first, second, third, fourth)

-- The memory after each store of `push_frame`, from the highest address down.
module _ (p num_args : ℕ) (pointers : List ℕ) (m : ℕ → ℕ) where
  abbrev pub empty : ℕ
  empty = p + 20 + 4 * (num_args + 1)

  abbrev pub with_pointers : ℕ → ℕ
  with_pointers = put_words (update m empty 0) (p + 20) (pointers ++ empty ∷ [])

  abbrev with_low : ℕ → ℕ
  with_low = put_word with_pointers (p + 16) (stack_start - default_stack_size)

  abbrev with_high : ℕ → ℕ
  with_high = put_word with_low (p + 12) stack_start

  abbrev with_argv : ℕ → ℕ
  with_argv = put_word with_high (p + 8) (p + 20)

  abbrev pub framed : ℕ → ℕ
  framed = update (update with_argv (p + 4) (num_args % 256)) p 0

  pub push_frame_lem :
      empty + 1 < 2 ^ 32 → push_frame num_args (pointers, empty + 1, m) ≡ (p, framed)
  unfolding push_frame back
  push_frame_lem small =
      let at_empty : back (empty + 1) 1 ≡ empty = back-sum empty 1 (omega arith) in
      let at_pointers : back empty ((num_args + 1) * 4) ≡ p + 20 = omega arith in
      let at_low : back (p + 20) 4 ≡ p + 16 = omega arith in
      let at_high : back (p + 16) 4 ≡ p + 12 = omega arith in
      let at_argv : back (p + 12) 4 ≡ p + 8 = omega arith in
      let at_argc : back (p + 8) 4 ≡ p + 4 = omega arith in
      rw (at_empty, at_pointers, at_low, at_high, at_argv, at_argc, back-sum p 4 (omega arith)) refl

  module _ (same_count : length pointers ≡ num_args) where
    -- What the stores below an address leave.
    below_high : SameBut p (p + 8) with_argv framed
    below_high = argc-SameBut with_argv p (num_args % 256)

    below_low : SameBut p (p + 12) with_high framed
    below_low =
        SameBut-then p (p + 12) (omega arith, omega arith, omega arith, omega arith)
          (put_word-SameBut with_high (p + 8) (p + 20)) below_high

    below_pointers_low : SameBut p (p + 16) with_low framed
    below_pointers_low =
        SameBut-then p (p + 16) (omega arith, omega arith, omega arith, omega arith)
          (put_word-SameBut with_low (p + 12) stack_start) below_low

    below_pointers : SameBut p (p + 20) with_pointers framed
    below_pointers =
        SameBut-then p (p + 20) (omega arith, omega arith, omega arith, omega arith)
          (put_word-SameBut with_pointers (p + 16) (stack_start - default_stack_size))
          below_pointers_low

    pointers_size : p + 20 + 4 * length (pointers ++ empty ∷ []) ≡ empty
    pointers_size = omega (arith, length-append pointers (empty ∷ []))

    below_empty : SameBut p empty (update m empty 0) framed
    below_empty =
        SameBut-then p empty (omega arith, omega arith, omega arith, omega arith)
          (subst (λ high. SameBut (p + 20) high (update m empty 0) with_pointers) pointers_size
            (put_words-SameBut (update m empty 0) (p + 20) (pointers ++ empty ∷ [])))
          below_pointers

    -- What the stores from an address on leave.
    above_pointers : SameBut (p + 20) (empty + 1) m with_pointers
    above_pointers =
        SameBut-then (p + 20) (empty + 1) (omega arith, omega arith, omega arith, omega arith)
          (update-SameBut m empty 0)
          (subst (λ high. SameBut (p + 20) high (update m empty 0) with_pointers) pointers_size
            (put_words-SameBut (update m empty 0) (p + 20) (pointers ++ empty ∷ [])))

    above_low : SameBut (p + 16) (empty + 1) m with_low
    above_low =
        SameBut-then (p + 16) (empty + 1) (omega arith, omega arith, omega arith, omega arith)
          above_pointers
          (put_word-SameBut with_pointers (p + 16) (stack_start - default_stack_size))

    above_high : SameBut (p + 12) (empty + 1) m with_high
    above_high =
        SameBut-then (p + 12) (empty + 1) (omega arith, omega arith, omega arith, omega arith)
          above_low (put_word-SameBut with_low (p + 12) stack_start)

    above_argv : SameBut (p + 8) (empty + 1) m with_argv
    above_argv =
        SameBut-then (p + 8) (empty + 1) (omega arith, omega arith, omega arith, omega arith)
          above_high (put_word-SameBut with_high (p + 8) (p + 20))

    pub framed-SameBut : SameBut p (empty + 1) m framed
    framed-SameBut =
        SameBut-then p (empty + 1) (omega arith, omega arith, omega arith, omega arith) above_argv
          below_high

    pub empty_string : framed empty ≡ 0
    empty_string = below_empty empty (inr (omega arith)) ∙ updated m empty 0

    pub pointers-WordsAt :
        AreWords (pointers ++ empty ∷ []) → WordsAt framed (p + 20) (pointers ++ empty ∷ [])
    pointers-WordsAt small =
        WordsAt-same with_pointers framed (p + 20) (pointers ++ empty ∷ [])
          (λ a low high. below_pointers a (inr low))
          (put_words-WordsAt (update m empty 0) (p + 20) (pointers ++ empty ∷ []) small)

    pub frame_words :
        empty < 2 ^ 32
        → (word_at framed (p + 8) ≡ p + 20)
          × (word_at framed (p + 12) ≡ stack_start)
          × (word_at framed (p + 16) ≡ stack_start - default_stack_size)
    frame_words small = (
      word_at-same with_argv framed (p + 8) (λ a low high. below_high a (inr low))
          ∙ word_at-put_word with_high (p + 8) (p + 20) (omega arith),
      word_at-same with_high framed (p + 12) (λ a low high. below_low a (inr low))
          ∙ word_at-put_word with_low (p + 12) stack_start (omega arith),
      word_at-same with_low framed (p + 16) (λ a low high. below_pointers_low a (inr low))
          ∙ word_at-put_word with_pointers (p + 16) (stack_start - default_stack_size)
              (omega arith),
    )

    -- The other three bytes of `argc` are those that were there.
    pub argc :
        num_args < 256
        → (m (p + 4 + 1) ≡ 0) × (m (p + 4 + 2) ≡ 0) × (m (p + 4 + 3) ≡ 0)
        → word_at framed (p + 4) ≡ num_args
    argc small clear = argc-word_at with_argv p num_args small (
      above_argv (p + 4 + 1) (inl (omega arith)) ∙ clear.0,
      above_argv (p + 4 + 2) (inl (omega arith)) ∙ clear.1,
      above_argv (p + 4 + 3) (inl (omega arith)) ∙ clear.2,
    )
