-- ===== src/Loader/Segments.antt =====
-- What a segment of a program file becomes in memory.
use p.Base.{
  ℕ, ◌+◌, ◌-◌, ◌%◌, ◌^◌, ◌≡◌, ◌≢◌, ◌<◌, ◌≤◌, inl, inr, refl, ap, true, false, ◌&&◌, ◌||◌, ◌==◌, leb,
  ltb, if◌then◌else◌, Bool-cases, none, some, List, memcpy, arith,
}
use p.Loader.Files.{File, read_file, find_file, getbytes, int_leb}
use p.Loader.Programs.{Loaded, loaded, failed, copy_segment, load_segment}

-- How many of `size` bytes from `offset` on the file has.
abbrev pub available : File → (offset size : ℕ) → ℕ
available f offset size = if leb (offset + size) f.execlen then size else f.execlen - offset

-- The size that the machine computes.
abbrev machine_size : (execlen offset size : ℕ) → ℕ
machine_size execlen offset size =
    if int_leb ((offset + size) % 2 ^ 32) execlen
    then size
    else (execlen + 2 ^ 32 - offset) % 2 ^ 32

no_bytes :
    (f : File) (offset size : ℕ)
    → f.execlen < 2 ^ 31
    → offset + size < 2 ^ 31
    → 4 ≤ size
    → int_leb (machine_size f.execlen offset size) 0 ≡ (available f offset size == 0)
no_bytes f offset size int small four = ground arith

some_bytes :
    (f : File) (offset size : ℕ)
    → f.execlen < 2 ^ 31
    → offset + size < 2 ^ 31
    → (available f offset size == 0) ≡ false
    → machine_size f.execlen offset size ≡ available f offset size
some_bytes f offset size int small more = ground arith

-- For a file that is found, and ints whose sum is one, getbytes copies what the file has.
pub getbytes-available :
    (toc : List File) (filename : List ℕ) (f : File) (offset size buf : ℕ)
    → find_file toc filename ≡ some f
    → f.execlen < 2 ^ 31
    → offset + size < 2 ^ 31
    → 4 ≤ size
    → buf ≢ 0
    → getbytes toc filename offset size buf ≡ (
        if available f offset size == 0
        then none
        else some (available f offset size, λ i. f.execbytes (offset + i)))
unfolding getbytes read_file
getbytes-available toc filename f offset size buf found int small four block =
    let fine : (leb (2 ^ 31) size || (buf == 0) || leb (2 ^ 31) offset || ltb size 4) ≡ false =
      ground (arith, small, four, block) in
    rw (fine, found, read_file, no_bytes f offset size int small four)
      (elim (Bool-cases (available f offset size == 0)) [
        | inl nothing ↦ rw nothing refl
        | inr more ↦ rw (more, some_bytes f offset size int small more) refl
      ])

-- A segment of `len` bytes, from the file as far as it goes and then from the block.
abbrev pub segment : File → (buf : ℕ) (kernel : ℕ → ℕ) (start len offset : ℕ) → (ℕ → ℕ) → ℕ → ℕ
segment f buf kernel start len offset m a =
    if leb start a && ltb a (start + len)
    then if ltb (offset + (a - start)) f.execlen
      then f.execbytes (offset + (a - start))
      else kernel (buf + (a - start))
    else m a

abbrev pub expected : File → (buf : ℕ) (kernel : ℕ → ℕ) (start len offset : ℕ) → (ℕ → ℕ) → Loaded
expected f buf kernel start len offset m =
    if len == 0
    then loaded m
    else if ltb len 4 || leb f.execlen offset
    then failed
    else loaded (segment f buf kernel start len offset m)

getbytes-short :
    (toc : List File) (filename : List ℕ) (offset size buf : ℕ)
    → ltb size 4 ≡ true
    → getbytes toc filename offset size buf ≡ none
unfolding getbytes
getbytes-short toc filename offset size buf short =
    let refused : (leb (2 ^ 31) size || (buf == 0) || leb (2 ^ 31) offset || ltb size 4) ≡ true =
      ground arith in
    rw refused refl

byte-segment :
    (f : File) (buf : ℕ) (kernel : ℕ → ℕ) (start len offset : ℕ) (m : ℕ → ℕ) (a : ℕ)
    → memcpy m
        (memcpy kernel (λ i. f.execbytes (offset + i)) buf 0 (available f offset len))
        start
        buf
        len
        a
      ≡ segment f buf kernel start len offset m a
byte-segment f buf kernel start len offset m a =
    elim (Bool-cases (leb start a && ltb a (start + len))) [
      | inr outside ↦ rw outside refl
      | inl within ↦
          let at : 0 + (buf + (a - start) - buf) ≡ a - start = omega arith in
          let first : leb buf (buf + (a - start)) ≡ true = ground arith in
          let in_file : ltb (buf + (a - start)) (buf + available f offset len)
              ≡ ltb (offset + (a - start)) f.execlen =
            ground arith in
          rw (within, at, first, in_file) refl
    ]

-- For a file found in the table, of fewer than 2^31 bytes, a buffer that is not NULL, and an
-- offset and length whose sum is below 2^31, load_segment changes nothing for length 0, fails for
-- lengths 1 to 3 and for offsets at or behind the end of the file, and otherwise writes exactly
-- the segment, with the bytes of the file as far as it goes and then what stood in the buffer.
pub load_segment-expected :
    (toc : List File) (filename : List ℕ) (f : File) (buf : ℕ) (kernel : ℕ → ℕ)
    (start len offset : ℕ) (m : ℕ → ℕ)
    → find_file toc filename ≡ some f
    → f.execlen < 2 ^ 31
    → offset + len < 2 ^ 31
    → buf ≢ 0
    → load_segment (some (buf, kernel)) toc filename start len offset m
      ≡ expected f buf kernel start len offset m
unfolding load_segment copy_segment
load_segment-expected toc filename f buf kernel start len offset m found int small block =
    elim (Bool-cases (len == 0)) [
      | inl nothing ↦ rw nothing refl
      | inr more ↦
          let positive : leb (2 ^ 31) len ≡ false = ground arith in
          elim (Bool-cases (ltb len 4)) [
            | inl short ↦
                rw (getbytes-short toc filename offset len buf short, more, positive, short) refl
            | inr long ↦
                rw
                  (
                    getbytes-available toc filename f offset len buf found int small (ground arith)
                        block,
                    more,
                    positive,
                    long,
                  )
                  (elim (Bool-cases (leb f.execlen offset)) [
                    | inl behind ↦
                        let nothing : (available f offset len == 0) ≡ true = ground arith in
                        rw (behind, nothing) refl
                    | inr before ↦
                        let something : (available f offset len == 0) ≡ false = ground arith in
                        rw (before, something)
                          (ap loaded (λ i a. byte-segment f buf kernel start len offset m a i))
                  ])
          ]
    ]
