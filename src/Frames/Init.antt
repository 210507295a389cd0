-- ===== src/Frames/Init.antt =====
-- `init_free_list` frees every frame, in the order of the addresses.
use p.Base.{
  ℕ, zero, suc, ◌+◌, ◌-◌, ◌*◌, ◌≤◌, ◌<◌, ◌≡◌, refl, List, [], ◌∷◌, arith, ◌∉◌, Distinct, length,
  update, subst, ltb, leb, ◌&&◌, if◌then◌else◌,
}
use p.Frames.Defs.{page_size, user_mem_start, list_end, frame_index, init_loop, init_free_list}
use p.Frames.FreeList.{max_frames, FreeChain, IsFree}

-- `n` frames from index `i` on
abbrev pub frames_from : ℕ → ℕ → List ℕ
frames_from i zero = []
frames_from i (suc n) = (user_mem_start + i * 4096) ∷ frames_from (i + 1) n

init_loop-get :
    (n i : ℕ) (arr : ℕ → ℕ) (j : ℕ)
    → init_loop n i arr j
      ≡ (if leb i j && ltb j (i + n) then user_mem_start + (j + 1) * 4096 else arr j)
unfolding init_loop
init_loop-get zero i arr j = ground arith
init_loop-get (suc n) i arr j =
    ground (arith, init_loop-get n (i + 1) (update arr i (user_mem_start + (i + 1) * page_size)) j)

pub length-frames_from : (i n : ℕ) → length (frames_from i n) ≡ n
length-frames_from i zero = refl
length-frames_from i (suc n) = omega (arith, length-frames_from (i + 1) n)

not-mem-frames_from : (a i n : ℕ) → a < user_mem_start + i * 4096 → a ∉ frames_from i n
not-mem-frames_from a i zero h = refl
not-mem-frames_from a i (suc n) h = ground (arith, not-mem-frames_from a (i + 1) n)

Distinct-frames_from : (i n : ℕ) → Distinct (frames_from i n)
Distinct-frames_from i zero = tt
Distinct-frames_from i (suc n) = (
  not-mem-frames_from (user_mem_start + i * 4096) (i + 1) n (omega arith),
  Distinct-frames_from (i + 1) n,
)

FreeChain-from :
    (count : ℕ) (arr : ℕ → ℕ) (n i : ℕ)
    → count ≤ max_frames
    → i + suc n ≡ count
    → ((j : ℕ) → j < count - 1 → arr j ≡ user_mem_start + (j + 1) * 4096)
    → arr (count - 1) ≡ list_end
    → FreeChain count arr (user_mem_start + i * 4096) (frames_from i (suc n))
FreeChain-from count arr zero i c e links last = (
  refl,
  omega arith,
  (let at : frame_index (user_mem_start + i * 4096) ≡ count - 1 = omega arith in
      ground (arith, last)),
)
FreeChain-from count arr (suc n) i c e links last =
    let at : frame_index (user_mem_start + i * 4096) ≡ i = omega arith in
    (
      refl,
      omega arith,
      subst (λ h. FreeChain count arr h (frames_from (i + 1) (suc n))) (ground (arith, links i))
          (FreeChain-from count arr n (i + 1) c (omega arith) links last),
    )

-- With 1 to 2^20 - 4096 frames, at boot the free list holds the managed frames above
-- USER_MEM_START, each once, in order.
pub init_free_list-IsFree :
    (count : ℕ) (arr : ℕ → ℕ)
    → 0 < count
    → count ≤ max_frames
    → IsFree count (init_free_list count arr) (frames_from 0 count)
unfolding init_free_list
init_free_list-IsFree zero arr h c = absurd (omega arith)
init_free_list-IsFree (suc n) arr h c = record {
  small = c;
  chain =
      subst
        (λ h.
          FreeChain (suc n) (update (init_loop (suc n - 1) 0 arr) (suc n - 1) list_end) h
            (frames_from 0 (suc n)))
        (omega arith)
        (FreeChain-from (suc n) (update (init_loop (suc n - 1) 0 arr) (suc n - 1) list_end) n 0 c
          (omega arith) (λ j below. ground (arith, init_loop-get (suc n - 1) 0 arr j))
          (ground arith));
  distinct = Distinct-frames_from 0 (suc n);
}
