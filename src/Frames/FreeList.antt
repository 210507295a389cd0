-- ===== src/Frames/FreeList.antt =====
-- The array and the head stand for a stack of distinct frames.
use p.Base.{
  ℕ, zero, suc, ◌+◌, ◌-◌, ◌*◌, ◌%◌, ◌^◌, ◌≤◌, ◌<◌, ◌≡◌, refl, List, [], ◌∷◌, none, some, arith, ◌∉◌,
  Distinct, length, update, subst, true,
}
use p.Frames.Defs.{
  Frames, ok, user_mem_start, list_end, frame_index, allocate_frame, deallocate_frame, count_free,
  check_physical_memory, is_frame,
}

-- Physical memory ends below 4 GB.
abbrev pub max_frames : ℕ
max_frames = 2 ^ 20 - 4096

-- An address of a page that the allocator manages.
pub record IsFrame (count addr : ℕ) : Type 0 where
  pub aligned : addr % 4096 ≡ 0
  pub above : user_mem_start ≤ addr
  pub below : addr < user_mem_start + count * 4096

abbrev pub FreeChain : (count : ℕ) → (ℕ → ℕ) → ℕ → List ℕ → Type 0
FreeChain count arr head [] = head ≡ list_end
FreeChain count arr head (f ∷ fs) =
    (head ≡ f) × IsFrame count f × FreeChain count arr (arr (frame_index f)) fs

-- `fs` are the free frames, the next one to hand out first.
pub record IsFree (count : ℕ) (s : Frames) (fs : List ℕ) : Type 0 where
  pub small : count ≤ max_frames
  pub chain : FreeChain count s.free_frames_arr s.free_list_head fs
  pub distinct : Distinct fs

frame_index-injective :
    (count a b : ℕ)
    → count ≤ max_frames
    → IsFrame count a
    → IsFrame count b
    → frame_index a ≡ frame_index b
    → a ≡ b
frame_index-injective count a b c fa fb e = omega arith

is_frame-true : (count a : ℕ) → count ≤ max_frames → IsFrame count a → is_frame count a ≡ true
is_frame-true count a c f = ground arith

FreeChain-update :
    (count : ℕ) (arr : ℕ → ℕ) (head : ℕ) (fs : List ℕ) (a v : ℕ)
    → count ≤ max_frames
    → IsFrame count a
    → FreeChain count arr head fs
    → a ∉ fs
    → FreeChain count (update arr (frame_index a) v) head fs
FreeChain-update count arr head [] a v c fa k o = k
FreeChain-update count arr head (f ∷ fs) a v c fa k o =
    let ih = FreeChain-update count arr (arr (frame_index f)) fs a v c fa k.2 (ground arith) in
    (
      k.0,
      k.1,
      subst (λ h. FreeChain count (update arr (frame_index a) v) h fs)
          (ground (arith, frame_index-injective count a f c fa k.1)) ih,
    )

module _ {count : ℕ} {s : Frames} where
  -- With no free frame the allocator returns NULL and changes nothing; otherwise it hands out the
  -- first free frame and keeps the others free. No assertion fails.
  pub allocate_frame-none : IsFree count s [] → allocate_frame count s ≡ ok (none, s)
  unfolding allocate_frame
  allocate_frame-none v = ground arith

  pub allocate_frame-some :
      {f : ℕ} {fs : List ℕ}
      → IsFree count s (f ∷ fs)
      → (s' : Frames) × (allocate_frame count s ≡ ok (some f, s')) × IsFree count s' fs
  unfolding allocate_frame
  allocate_frame-some {f} {fs} v = (
    record s { free_list_head = s.free_frames_arr (frame_index f) },
    ground (arith, is_frame-true count f v.small v.chain.1, v.chain),
    record { small = v.small; chain = v.chain.2; distinct = v.distinct.1 },
  )

  pub deallocate_frame-IsFree :
      {fs : List ℕ} (f : ℕ)
      → IsFree count s fs
      → IsFrame count f
      → f ∉ fs
      → (s' : Frames) × (deallocate_frame count f s ≡ ok s') × IsFree count s' (f ∷ fs)
  unfolding deallocate_frame
  deallocate_frame-IsFree {fs} f v fr out = (
    record {
      free_frames_arr = update s.free_frames_arr (frame_index f) s.free_list_head;
      free_list_head = f;
    },
    ground (arith, is_frame-true count f v.small fr),
    record {
      small = v.small;
      chain = (
        refl,
        fr,
        subst
            (λ h. FreeChain count (update s.free_frames_arr (frame_index f) s.free_list_head) h fs)
            (ground arith)
            (FreeChain-update count s.free_frames_arr s.free_list_head fs f s.free_list_head v.small
              fr v.chain out),
      );
      distinct = (out, v.distinct);
    },
  )

count_free-length :
    (count : ℕ) (fuel : ℕ) (arr : ℕ → ℕ) (head n : ℕ) (fs : List ℕ)
    → count ≤ max_frames
    → FreeChain count arr head fs
    → length fs < fuel
    → count_free fuel arr head n ≡ some (ok (n + length fs))
unfolding count_free
count_free-length count zero arr head n fs c k h = absurd (omega arith)
count_free-length count (suc fuel) arr head n [] c k h = ground arith
count_free-length count (suc fuel) arr head n (f ∷ fs) c k h =
    ground (arith, k.1, count_free-length count fuel arr (arr (frame_index f)) (n + 1) fs c k.2)

-- For a well-formed free list, with more fuel than free frames, check_physical_memory ends and
-- returns the number of free frames.
check_physical_memory-length :
    {count : ℕ} {s : Frames} {fs : List ℕ} (fuel : ℕ)
    → IsFree count s fs
    → length fs < fuel
    → check_physical_memory fuel s ≡ some (ok (length fs))
unfolding check_physical_memory
check_physical_memory-length {count} {s} {fs} fuel v h =
    ground
      (arith, count_free-length count fuel s.free_frames_arr s.free_list_head 0 fs v.small v.chain)
