-- ===== src/Loader/Image.antt =====
-- The memory of a program that is loaded.
use p.Base.{
  ℕ, ◌+◌, ◌-◌, ◌^◌, ◌≡◌, ◌≢◌, ◌<◌, ◌≤◌, ◌⊎◌, inl, inr, refl, ap, ◌∙◌, true, false, ◌&&◌, ◌||◌, ◌==◌,
  leb, ltb, if◌then◌else◌, Bool-cases, some, List, arith,
}
use p.Loader.Files.{File, find_file}
use p.Loader.Programs.{loaded, load_segment, SimpleElf, and_then, clear, load_program}
use p.Loader.Segments.{segment, expected, load_segment-expected}

-- A segment that is empty, or has at least 4 bytes, all of them in the file.
abbrev pub IsWhole : File → (len offset : ℕ) → Type 0
IsWhole f len offset = (len ≡ 0) ⊎ ((4 ≤ len) × (offset + len ≤ f.execlen))

-- Memory with a segment of the file over it.
abbrev pub over : File → (start len offset : ℕ) → (ℕ → ℕ) → ℕ → ℕ
over f start len offset m a =
    if leb start a && ltb a (start + len) then f.execbytes (offset + (a - start)) else m a

-- The bss section, the read-only data, the data and the text, the first of them that has an address.
abbrev pub image : File → SimpleElf → (ℕ → ℕ) → ℕ → ℕ
image f e m a =
    if leb e.e_bssstart a && ltb a (e.e_bssstart + e.e_bsslen)
    then 0
    else over f e.e_rodatstart e.e_rodatlen e.e_rodatoff
        (over f e.e_datstart e.e_datlen e.e_datoff (over f e.e_txtstart e.e_txtlen e.e_txtoff m)) a

expected-over :
    (f : File) (buf : ℕ) (kernel : ℕ → ℕ) (start len offset : ℕ) (m : ℕ → ℕ)
    → IsWhole f len offset
    → expected f buf kernel start len offset m ≡ loaded (over f start len offset m)
expected-over f buf kernel start len offset m (inl none_at_all) =
    let nothing : (len == 0) ≡ true = ground arith in rw nothing (ap loaded (λ i a. empty_over a i))
  where
    empty_over : (a : ℕ) → m a ≡ over f start len offset m a
    empty_over a = ground arith
expected-over f buf kernel start len offset m (inr (long, inside)) =
    let more : (len == 0) ≡ false = ground arith in
    let good : (ltb len 4 || leb f.execlen offset) ≡ false = ground arith in
    rw (more, good) (ap loaded (λ i a. byte a i))
  where
    byte : (a : ℕ) → segment f buf kernel start len offset m a ≡ over f start len offset m a
    byte a = elim (Bool-cases (leb start a && ltb a (start + len))) [
      | inr outside ↦ rw outside refl
      | inl within ↦
          let in_file : ltb (offset + (a - start)) f.execlen ≡ true = ground arith in
          rw (within, in_file) refl
    ]

module _ (toc : List File) (f : File) (int : f.execlen < 2 ^ 31) where
  whole_segment :
      (filename : List ℕ) (buf : ℕ) (kernel : ℕ → ℕ) (start len offset : ℕ) (m : ℕ → ℕ)
      → find_file toc filename ≡ some f
      → IsWhole f len offset
      → offset < 2 ^ 31
      → buf ≢ 0
      → load_segment (some (buf, kernel)) toc filename start len offset m
        ≡ loaded (over f start len offset m)
  whole_segment filename buf kernel start len offset m found (inl none_at_all) small block =
      load_segment-expected toc filename f buf kernel start len offset m found int (omega arith)
        block
      ∙ expected-over f buf kernel start len offset m (inl none_at_all)
  whole_segment filename buf kernel start len offset m found (inr (long, inside)) small block =
      load_segment-expected toc filename f buf kernel start len offset m found int (omega arith)
        block
      ∙ expected-over f buf kernel start len offset m (inr (long, inside))

  -- When memory for each buffer is there, a program that is found in the table of files, of fewer
  -- than 2^31 bytes, whose text, data and read-only data each are empty or have at least 4 bytes,
  -- all within the file, at offsets below 2^31, is loaded: every address then has a 0 in the bss
  -- section, else the byte of the file in the read-only data, else in the data, else in the text,
  -- else what it had before.
  pub load_program-image :
      (e : SimpleElf) (b1 b2 b3 : ℕ) (k1 k2 k3 m : ℕ → ℕ)
      → find_file toc e.e_fname ≡ some f
      → IsWhole f e.e_txtlen e.e_txtoff
      → IsWhole f e.e_datlen e.e_datoff
      → IsWhole f e.e_rodatlen e.e_rodatoff
      → (e.e_txtoff < 2 ^ 31) × (e.e_datoff < 2 ^ 31) × (e.e_rodatoff < 2 ^ 31)
      → (b1 ≢ 0) × (b2 ≢ 0) × (b3 ≢ 0)
      → load_program (some (b1, k1)) (some (b2, k2)) (some (b3, k3)) toc e m ≡ loaded (image f e m)
  unfolding load_program and_then clear
  load_program-image e b1 b2 b3 k1 k2 k3 m found txt dat rodat offsets blocks =
      let text = over f e.e_txtstart e.e_txtlen e.e_txtoff m in
      let data_over = over f e.e_datstart e.e_datlen e.e_datoff text in
      rw
        (
          whole_segment e.e_fname b1 k1 e.e_txtstart e.e_txtlen e.e_txtoff m found txt offsets.0
              blocks.0,
          whole_segment e.e_fname b2 k2 e.e_datstart e.e_datlen e.e_datoff text found dat offsets.1
              blocks.1,
          whole_segment e.e_fname b3 k3 e.e_rodatstart e.e_rodatlen e.e_rodatoff data_over found
              rodat offsets.2 blocks.2,
        )
        refl
