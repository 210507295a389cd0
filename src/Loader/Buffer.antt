-- ===== src/Loader/Buffer.antt =====
-- The memcpy of getbytes to a buffer of the current task, through its page tables.
use p.Base.{
  ℕ, zero, suc, ◌+◌, ◌%◌, ◌^◌, ◌≡◌, ◌≢◌, ◌<◌, ◌≤◌, ◌⊎◌, inl, inr, Bool, true, ◌&&◌, ◌==◌,
  if◌then◌else◌, Option, none, some, update, Bool-cases, ◌∙◌, refl, arith,
}
use p.Vm.{Vm, is_page_mapped}
use p.Vm.Entry.{entry_addr, pd_index, pt_index}
use p.Exec.{read_byte}

abbrev pub frame_at : Vm → (addr : ℕ) → ℕ
frame_at t addr = entry_addr (t.word (entry_addr (t.word t.cr3 (pd_index addr))) (pt_index addr))

abbrev pub store_byte : (addr b : ℕ) → Vm → Vm
store_byte addr b t = record t {
  page = update t.page (frame_at t addr) (update (t.page (frame_at t addr)) (addr % 4096) b);
}

-- `none` at a page fault. The kernel may write to pages without the write flag, since the bit WP of
-- cr0 is not set. The page tables are not in the buffer.
unfoldable pub store_bytes : (src : ℕ → ℕ) → (buf n : ℕ) → Vm → Option Vm
unfolding is_page_mapped
store_bytes src buf zero t = some t
store_bytes src buf (suc n) t = elim (store_bytes src buf n t) [
  | none ↦ none
  | some u ↦
      let addr = (buf + n) % 2 ^ 32 in
      if is_page_mapped u addr then some (store_byte addr (src n) u) else none
]

-- The pages of the `n` bytes from `buf` on are mapped.
abbrev pub all_mapped : Vm → (buf n : ℕ) → Bool
all_mapped t buf zero = true
all_mapped t buf (suc n) = all_mapped t buf n && is_page_mapped t (buf + n)

-- Two places of physical memory differ.
abbrev pub Apart : (frame offset frame' offset' : ℕ) → Type 0
Apart frame offset frame' offset' = (frame ≢ frame') ⊎ (offset ≢ offset')

-- No two of the `n` bytes from `buf` on are one byte of physical memory.
abbrev pub NoAlias : Vm → (buf n : ℕ) → Type 0
NoAlias t buf n =
    (i j : ℕ)
    → i < j
    → j < n
    → Apart (frame_at t (buf + i)) ((buf + i) % 4096) (frame_at t (buf + j)) ((buf + j) % 4096)

-- The `n` bytes are at the buffer, and all other bytes of physical memory as before.
pub record Stored (src : ℕ → ℕ) (buf n : ℕ) (t u : Vm) : Type 0 where
  pub bytes : (i : ℕ) → i < n → read_byte u (buf + i) ≡ src i
  pub others :
      (frame offset : ℕ)
      → ((i : ℕ) → i < n → Apart frame offset (frame_at t (buf + i)) ((buf + i) % 4096))
      → u.page frame offset ≡ t.page frame offset

pub all_mapped-le :
    (t : Vm) (buf m n : ℕ) → m ≤ n → all_mapped t buf n ≡ true → all_mapped t buf m ≡ true
all_mapped-le t buf zero n h mapped = refl
all_mapped-le t buf (suc m) zero h mapped = absurd (omega arith)
all_mapped-le t buf (suc m) (suc n) h mapped = elim (Bool-cases (m == n)) [
  | inl same ↦ let e : m ≡ n = ground arith in rw e mapped
  | inr other ↦ all_mapped-le t buf (suc m) n (ground arith) (ground arith)
]

place :
    (g : ℕ → ℕ → ℕ) (f o b f' o' : ℕ)
    → Apart f' o' f o
    → update g f (update (g f) o b) f' o' ≡ g f' o'
place g f o b f' o' (inl apart) = ground arith
place g f o b f' o' (inr apart) = ground arith

placed : (g : ℕ → ℕ → ℕ) (f o b : ℕ) → update g f (update (g f) o b) f o ≡ b
placed g f o b = ground arith

module _ (src : ℕ → ℕ) (buf : ℕ) (t : Vm) where
  pub store_bytes-Stored :
      (n : ℕ)
      → buf + n ≤ 2 ^ 32
      → all_mapped t buf n ≡ true
      → NoAlias t buf n
      → (page : ℕ → ℕ → ℕ) × (store_bytes src buf n t ≡ some (record t { page = page }))
        × Stored src buf n t (record t { page = page })
  unfolding store_bytes is_page_mapped
  store_bytes-Stored zero fits mapped apart =
      (t.page, refl, record { bytes = λ i h. absurd (omega arith); others = λ f o h. refl })
  store_bytes-Stored (suc n) fits mapped apart =
      let (page, e, stored) =
        store_bytes-Stored n (omega arith) (ground arith) (λ i j h h'. apart i j h (omega arith)) in
      let small : (buf + n) % 2 ^ 32 ≡ buf + n = omega arith in
      let present : is_page_mapped (record t { page = page }) (buf + n) ≡ true = ground arith in
      let f = frame_at t (buf + n) in
      let o = (buf + n) % 4096 in
      (
        update page f (update (page f) o (src n)),
        rw (e, small, present) refl,
        record {
          bytes = λ i h. elim (Bool-cases (i == n)) [
            | inl same ↦ let i_n : i ≡ n = ground arith in rw i_n (placed page f o (src n))
            | inr other ↦
                place page f o (src n) (frame_at t (buf + i)) ((buf + i) % 4096)
                  (apart i n (ground arith) (omega arith))
                ∙ stored.bytes i (ground arith)
          ];
          others = λ f' o' away.
              place page f o (src n) f' o' (away n (omega arith))
              ∙ stored.others f' o' (λ i h. away i (omega arith));
        },
      )
