-- ===== src/Vm/Defs.antt =====
-- The memory that the virtual memory system works on, and steps that read and write it.
use p.Base.{
  ℕ, ◌+◌, ◌-◌, ◌%◌, ◌^◌, Bool, ◌&&◌, not, ◌==◌, ltb, if◌then◌else◌, Option, none, List, [], ◌∷◌,
  update,
}
use p.Frames.{Frames, Outcome, ok, panic, frame_index, allocate_frame, deallocate_frame}

-- `word page i` is the i-th word of the page directory or page table at address `page`, `page frame`
-- the contents of a physical frame. `heap` are the answers that `smemalign` will give, in order: it
-- stands on a memory manager outside these files.
pub record Vm : Type 0 where
  pub frames : Frames
  pub frame_ref_count : ℕ → ℕ
  pub word : ℕ → ℕ → ℕ
  pub page : ℕ → ℕ → ℕ
  pub cr3 : ℕ
  pub heap : List (Option ℕ)

-- A failed `kernel_assert` is `panic`.
abbrev pub M : Type 0 → Type 0
M A = Vm → Outcome (A × Vm)

abbrev pub pure : {A : Type 0} → A → M A
pure a s = ok (a, s)

abbrev pub and_then : {A B : Type 0} → Outcome (A × Vm) → (A → M B) → Outcome (B × Vm)
and_then (ok (a, s)) f = f a s
and_then panic f = panic

infixl 5 ◌>>=◌ ◌>>◌
abbrev pub ◌>>=◌ : {A B : Type 0} → M A → (A → M B) → M B
◌>>=◌ m f s = and_then (m s) f

abbrev pub ◌>>◌ : {B : Type 0} → M (Unit {0}) → M B → M B
m >> k = m >>= λ _. k

abbrev pub kernel_assert : Bool → M (Unit {0})
kernel_assert b s = if b then ok (tt, s) else panic

unfoldable pub get_word : (page i : ℕ) → M ℕ
get_word page i s = ok (s.word page i, s)

unfoldable pub set_word : (page i v : ℕ) → M (Unit {0})
set_word page i v s = ok (tt, record s { word = update s.word page (update (s.word page) i v) })

unfoldable pub get_cr3 : M ℕ
get_cr3 s = ok (s.cr3, s)

unfoldable pub set_cur_pd : ℕ → M (Unit {0})
set_cur_pd pd s = ok (tt, record s { cr3 = pd })

-- `smemalign(PAGE_SIZE, PAGE_SIZE)`; with no answer left it fails.
unfoldable pub smemalign : M (Option ℕ)
smemalign s = elim s.heap [ [] ↦ ok (none, s) | a ∷ rest ↦ ok (a, record s { heap = rest }) ]

module _ (count : ℕ) where
  -- The assertions of `lock_frame` and `unlock_frame`. The locks themselves are taken and released
  -- within one call.
  unfoldable pub lock_frame : ℕ → M (Unit {0})
  lock_frame addr = kernel_assert (not (addr == 0) && ltb (frame_index addr) count)

  unfoldable pub new_frame : M (Option ℕ)
  new_frame s = elim (allocate_frame count s.frames) [
    | ok r ↦ ok (r.0, record s { frames = r.1 })
    | panic ↦ panic
  ]

  unfoldable pub give_back : ℕ → M (Unit {0})
  give_back addr s = elim (deallocate_frame count addr s.frames) [
    | ok f ↦ ok (tt, record s { frames = f })
    | panic ↦ panic
  ]

unfoldable pub get_ref : ℕ → M ℕ
get_ref addr s = ok (s.frame_ref_count (frame_index addr), s)

unfoldable pub set_ref : (addr n : ℕ) → M (Unit {0})
set_ref addr n s =
    ok (tt, record s { frame_ref_count = update s.frame_ref_count (frame_index addr) n })

-- `frame_ref_count[..]++` and `--` on a 32-bit int
unfoldable pub increment : ℕ → M (Unit {0})
unfolding get_ref set_ref
increment addr = do n ← get_ref addr; set_ref addr ((n + 1) % 2 ^ 32)

unfoldable pub decrement : ℕ → M (Unit {0})
unfolding get_ref set_ref
decrement addr = do n ← get_ref addr; set_ref addr ((n + 2 ^ 32 - 1) % 2 ^ 32)
