-- ===== src/Frames/Owners.antt =====
-- Callers of the allocator: each frame is free or handed out to one owner.
use p.Base.{
  remove, length-remove, Distinct-remove, Distinct-drop, Distinct-insert, ℕ, ◌+◌, ◌≤◌, ◌<◌, ◌≡◌,
  List, [], ◌∷◌, ◌++◌, none, some, arith, ◌∈◌, ◌∉◌, Distinct, length, ◌⊎◌, subst, ◌==◌, has-append,
  inl, inr, Bool-cases,
}
use p.Frames.Defs.{Frames, ok, allocate_frame, deallocate_frame, init_free_list}
use p.Frames.FreeList.{
  max_frames, IsFrame, IsFree, allocate_frame-none, allocate_frame-some, deallocate_frame-IsFree,
}
use p.Frames.Init.{frames_from, init_free_list-IsFree, length-frames_from}

-- The allocator's state and the frames that callers hold.
pub record Owned : Type 0 where
  pub frames : Frames
  pub held : List ℕ

-- A caller asks for a frame, or gives back one that it holds.
pub data Step (count : ℕ) (s : Owned) : Owned → Type 0 where
  refused :
      {t : Frames}
      → allocate_frame count s.frames ≡ ok (none, t)
      → Step count s (record s { frames = t })
  granted :
      {t : Frames} {f : ℕ}
      → allocate_frame count s.frames ≡ ok (some f, t)
      → Step count s (record { frames = t; held = f ∷ s.held })
  freed :
      (f : ℕ) {t : Frames}
      → f ∈ s.held
      → deallocate_frame count f s.frames ≡ ok t
      → Step count s (record { frames = t; held = remove f s.held })

pub data Reach (count : ℕ) (arr : ℕ → ℕ) : Owned → Type 0 where
  start : Reach count arr (record { frames = init_free_list count arr; held = [] })
  later : {s t : Owned} → Reach count arr s → Step count s t → Reach count arr t

abbrev pub AllFrames : ℕ → List ℕ → Type 0
AllFrames count [] = Unit
AllFrames count (x ∷ xs) = IsFrame count x × AllFrames count xs

-- The held and the free frames are the managed frames, each once.
pub record Shared (count : ℕ) (s : Owned) (fs : List ℕ) : Type 0 where
  pub free : IsFree count s.frames fs
  pub valid : AllFrames count s.held
  pub once : Distinct (s.held ++ fs)
  pub total : length s.held + length fs ≡ count

AllFrames-mem : (count a : ℕ) (xs : List ℕ) → AllFrames count xs → a ∈ xs → IsFrame count a
AllFrames-mem count a [] all i = absurd (cc)
AllFrames-mem count a (x ∷ xs) all i = elim (Bool-cases (a == x)) [
  | inl same ↦ subst (IsFrame count) (ground arith) all.0
  | inr other ↦ AllFrames-mem count a xs all.1 (ground arith)
]

AllFrames-remove : (count a : ℕ) (xs : List ℕ) → AllFrames count xs → AllFrames count (remove a xs)
AllFrames-remove count a [] all = tt
AllFrames-remove count a (x ∷ xs) all = elim (Bool-cases (a == x)) [
  | inl same ↦ rw same all.1
  | inr other ↦ rw other (all.0, AllFrames-remove count a xs all.1)
]

-- A step keeps every frame free or held, once.
Step-Shared :
    {count : ℕ} {s t : Owned} (fs : List ℕ)
    → Step count s t
    → Shared count s fs
    → (gs : List ℕ) × Shared count t gs
Step-Shared {count} {s} [] (refused {t} e) v =
    let e' = allocate_frame-none v.free in
    let same : s.frames ≡ t = cc in
    (
      [],
      record {
        free = subst (λ u. IsFree count u []) same v.free;
        valid = v.valid;
        once = v.once;
        total = v.total;
      },
    )
Step-Shared {count} {s} (g ∷ gs) (refused e) v =
    let (s', e', free) = allocate_frame-some v.free in absurd (cc)
Step-Shared [] (granted e) v = let e' = allocate_frame-none v.free in absurd (cc)
Step-Shared {count} {s} (g ∷ gs) (granted {t} {f} e) v =
    let (s', e', free) = allocate_frame-some v.free in
    let same : (s' ≡ t) × (g ≡ f) = ground arith in
    (
      gs,
      record {
        free = subst (λ u. IsFree count u gs) same.0 free;
        valid = (subst (IsFrame count) same.1 v.free.chain.1, v.valid);
        once =
            subst (λ c. Distinct (c ∷ s.held ++ gs)) same.1
              (let (rest, out) = Distinct-drop g s.held gs v.once in (out, rest));
        total = omega (arith, v.total);
      },
    )
Step-Shared {count} {s} fs (freed f {t} i e) v =
    let (rest, out) = Distinct-remove f s.held fs i v.once in
    let (s', e', free) =
      deallocate_frame-IsFree f v.free (AllFrames-mem count f s.held v.valid i)
        (ground (arith, has-append f (remove f s.held) fs)) in
    let same : s' ≡ t = ground arith in
    (
      f ∷ fs,
      record {
        free = subst (λ u. IsFree count u (f ∷ fs)) same free;
        valid = AllFrames-remove count f s.held v.valid;
        once = Distinct-insert (remove f s.held) fs f rest out;
        total = omega (arith, v.total, length-remove f s.held i);
      },
    )

-- What a request may answer.
abbrev pub Exclusive : ℕ → Owned → Type 0
Exclusive count s =
    ((allocate_frame count s.frames ≡ ok (none, s.frames)) × (length s.held ≡ count))
    ⊎ ((f : ℕ) × (t : Frames) × (allocate_frame count s.frames ≡ ok (some f, t))
        × (f ∉ s.held)
        × IsFrame count f
        × (length s.held < count))

module _ {count : ℕ} {arr : ℕ → ℕ} (some_frames : 0 < count) (small : count ≤ max_frames) where
  Reach-Shared : {s : Owned} → Reach count arr s → (fs : List ℕ) × Shared count s fs
  Reach-Shared start = (
    frames_from 0 count,
    record {
      free = init_free_list-IsFree count arr some_frames small;
      valid = tt;
      once = (init_free_list-IsFree count arr some_frames small).distinct;
      total = omega (arith, length-frames_from 0 count);
    },
  )
  Reach-Shared (later r st) = let (fs, v) = Reach-Shared r in Step-Shared fs st v

  -- With 1 to 2^20 - 4096 frames, in every state that requests and returns of frames reach from
  -- boot, a request is refused exactly when all frames are held, and otherwise it gets a frame of
  -- the managed range that no caller holds; no assertion fails.
  pub allocate_frame-Exclusive : {s : Owned} → Reach count arr s → Exclusive count s
  allocate_frame-Exclusive {s} r = let (fs, v) = Reach-Shared r in by_free fs v
    where
      by_free : (fs : List ℕ) → Shared count s fs → Exclusive count s
      by_free [] v = inl (allocate_frame-none v.free, omega (arith, v.total))
      by_free (f ∷ fs) v =
          let (t, e, free) = allocate_frame-some v.free in
          let (rest, out) = Distinct-drop f s.held fs v.once in
          inr (
            f,
            t,
            e,
            ground (arith, has-append f s.held fs),
            v.free.chain.1,
            omega (arith, v.total),
          )

  -- With 1 to 2^20 - 4096 frames, in every reachable state a held frame can be given back without
  -- a failed assertion, and the next request gets that frame.
  deallocate-allocate :
      {s : Owned} (f : ℕ)
      → Reach count arr s
      → f ∈ s.held
      → (t u : Frames) × (deallocate_frame count f s.frames ≡ ok t)
        × (allocate_frame count t ≡ ok (some f, u))
  deallocate-allocate {s} f r i =
      let (fs, v) = Reach-Shared r in
      let (rest, out) = Distinct-remove f s.held fs i v.once in
      let (t, e, free) =
        deallocate_frame-IsFree f v.free (AllFrames-mem count f s.held v.valid i)
          (ground (arith, has-append f (remove f s.held) fs)) in
      let (u, e', free') = allocate_frame-some free in (t, u, e, e')
