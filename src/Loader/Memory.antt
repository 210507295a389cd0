-- ===== src/Loader/Memory.antt =====
-- User memory as the kernel writes it once the pages are mapped: bytes, words and strings.
use p.Base.{
  ℕ, ◌+◌, ◌*◌, ◌/◌, ◌%◌, ◌^◌, ◌≤◌, ◌<◌, ◌≡◌, ◌⊎◌, inl, inr, refl, ◌∙◌, ◌==◌, if◌then◌else◌, List,
  [], ◌∷◌, length, update, arith,
}

-- The byte `i` of a word, from the low one on.
abbrev pub put_word : (ℕ → ℕ) → (addr w : ℕ) → ℕ → ℕ
put_word m p w a =
    if a == p
    then w % 256
    else if a == p + 1
    then w / 256 % 256
    else if a == p + 2
    then w / 65536 % 256
    else if a == p + 3
    then w / 16777216 % 256
    else m a

abbrev pub word_at : (ℕ → ℕ) → (addr : ℕ) → ℕ
word_at m p = m p + 256 * m (p + 1) + 65536 * m (p + 2) + 16777216 * m (p + 3)

unfoldable pub put_words : (ℕ → ℕ) → (addr : ℕ) → List ℕ → ℕ → ℕ
put_words m p [] = m
put_words m p (w ∷ ws) = put_words (put_word m p w) (p + 4) ws

-- `strcpy` of a string without its 0.
unfoldable pub strcpy : (ℕ → ℕ) → (dest : ℕ) → List ℕ → ℕ → ℕ
strcpy m p [] = update m p 0
strcpy m p (c ∷ cs) = strcpy (update m p c) (p + 1) cs

abbrev pub StringAt : (ℕ → ℕ) → ℕ → List ℕ → Type 0
StringAt m p [] = m p ≡ 0
StringAt m p (c ∷ cs) = (m p ≡ c) × StringAt m (p + 1) cs

abbrev pub WordsAt : (ℕ → ℕ) → ℕ → List ℕ → Type 0
WordsAt m p [] = Unit
WordsAt m p (w ∷ ws) = (word_at m p ≡ w) × WordsAt m (p + 4) ws

-- The two memories agree from `low` below `high`.
abbrev pub SameIn : (low high : ℕ) → (m m' : ℕ → ℕ) → Type 0
SameIn low high m m' = (a : ℕ) → low ≤ a → a < high → m' a ≡ m a

-- The two agree but for the bytes from `low` below `high`.
abbrev pub SameBut : (low high : ℕ) → (m m' : ℕ → ℕ) → Type 0
SameBut low high m m' = (a : ℕ) → (a < low) ⊎ (high ≤ a) → m' a ≡ m a

pub word_at-put_word : (m : ℕ → ℕ) (p w : ℕ) → w < 2 ^ 32 → word_at (put_word m p w) p ≡ w
word_at-put_word m p w small =
    let first : put_word m p w p ≡ w % 256 = ground arith in
    let second : put_word m p w (p + 1) ≡ w / 256 % 256 = ground arith in
    let third : put_word m p w (p + 2) ≡ w / 65536 % 256 = ground arith in
    let fourth : put_word m p w (p + 3) ≡ w / 16777216 % 256 = ground arith in
    omega (arith, first, second, third, fourth)

pub put_word-SameBut : (m : ℕ → ℕ) (p w : ℕ) → SameBut p (p + 4) m (put_word m p w)
put_word-SameBut m p w a (inl below) = ground arith
put_word-SameBut m p w a (inr above) = ground arith

pub put_words-SameBut :
    (m : ℕ → ℕ) (p : ℕ) (ws : List ℕ) → SameBut p (p + 4 * length ws) m (put_words m p ws)
unfolding put_words
put_words-SameBut m p [] a out = refl
put_words-SameBut m p (w ∷ ws) a (inl below) =
    put_words-SameBut (put_word m p w) (p + 4) ws a (inl (omega arith))
    ∙ put_word-SameBut m p w a (inl below)
put_words-SameBut m p (w ∷ ws) a (inr above) =
    put_words-SameBut (put_word m p w) (p + 4) ws a (inr (omega arith))
    ∙ put_word-SameBut m p w a (inr (omega arith))

pub strcpy-SameBut :
    (m : ℕ → ℕ) (p : ℕ) (s : List ℕ) → SameBut p (p + length s + 1) m (strcpy m p s)
unfolding strcpy
strcpy-SameBut m p [] a out = ground arith
strcpy-SameBut m p (c ∷ cs) a (inl below) =
    strcpy-SameBut (update m p c) (p + 1) cs a (inl (omega arith)) ∙ ground arith
strcpy-SameBut m p (c ∷ cs) a (inr above) =
    strcpy-SameBut (update m p c) (p + 1) cs a (inr (omega arith)) ∙ ground arith

pub strcpy-StringAt : (m : ℕ → ℕ) (p : ℕ) (s : List ℕ) → StringAt (strcpy m p s) p s
unfolding strcpy
strcpy-StringAt m p [] = ground arith
strcpy-StringAt m p (c ∷ cs) = (
  strcpy-SameBut (update m p c) (p + 1) cs p (inl (omega arith)) ∙ ground arith,
  strcpy-StringAt (update m p c) (p + 1) cs,
)

pub StringAt-same :
    (m m' : ℕ → ℕ) (p : ℕ) (s : List ℕ)
    → SameIn p (p + length s + 1) m m'
    → StringAt m p s
    → StringAt m' p s
StringAt-same m m' p [] same string = same p (omega arith) (omega arith) ∙ string
StringAt-same m m' p (c ∷ cs) same (byte, rest) = (
  same p (omega arith) (omega arith) ∙ byte,
  StringAt-same m m' (p + 1) cs (λ a low high. same a (omega arith) (omega arith)) rest,
)

pub word_at-same : (m m' : ℕ → ℕ) (p : ℕ) → SameIn p (p + 4) m m' → word_at m' p ≡ word_at m p
word_at-same m m' p same =
    rw
      (
        same p (omega arith) (omega arith),
        same (p + 1) (omega arith) (omega arith),
        same (p + 2) (omega arith) (omega arith),
        same (p + 3) (omega arith) (omega arith),
      )
      refl

pub WordsAt-same :
    (m m' : ℕ → ℕ) (p : ℕ) (ws : List ℕ)
    → SameIn p (p + 4 * length ws) m m'
    → WordsAt m p ws
    → WordsAt m' p ws
WordsAt-same m m' p [] same words = tt
WordsAt-same m m' p (w ∷ ws) same (word, rest) = (
  word_at-same m m' p (λ a low high. same a low (omega arith)) ∙ word,
  WordsAt-same m m' (p + 4) ws (λ a low high. same a (omega arith) (omega arith)) rest,
)

-- One change of memory after another, within wider bounds.
pub SameBut-then :
    {low high low' high' : ℕ} {m m' m'' : ℕ → ℕ} (bottom top : ℕ)
    → (bottom ≤ low) × (high ≤ top) × (bottom ≤ low') × (high' ≤ top)
    → SameBut low high m m'
    → SameBut low' high' m' m''
    → SameBut bottom top m m''
SameBut-then bottom top bounds first second a (inl below) =
    second a (inl (omega (arith, bounds.2))) ∙ first a (inl (omega (arith, bounds.0)))
SameBut-then bottom top bounds first second a (inr above) =
    second a (inr (omega (arith, bounds.3))) ∙ first a (inr (omega (arith, bounds.1)))

-- Words of 32 bits.
abbrev pub AreWords : List ℕ → Type 0
AreWords [] = Unit
AreWords (w ∷ ws) = (w < 2 ^ 32) × AreWords ws

pub put_words-WordsAt :
    (m : ℕ → ℕ) (p : ℕ) (ws : List ℕ) → AreWords ws → WordsAt (put_words m p ws) p ws
unfolding put_words
put_words-WordsAt m p [] small = tt
put_words-WordsAt m p (w ∷ ws) (small, rest) = (
  word_at-same (put_word m p w) (put_words (put_word m p w) (p + 4) ws) p
        (λ a low high. put_words-SameBut (put_word m p w) (p + 4) ws a (inl (omega arith)))
      ∙ word_at-put_word m p w small,
  put_words-WordsAt (put_word m p w) (p + 4) ws rest,
)
