-- ===== src/Loader/Files.antt =====
-- The programs that are linked into the kernel, and reads of them. A name is its characters without
-- the 0; offsets and sizes are bit patterns of ints, negative from 2^31 on.
use p.Base.{
  ℕ, zero, suc, ◌+◌, ◌-◌, ◌%◌, ◌^◌, Bool, true, false, ◌&&◌, ◌||◌, ◌==◌, leb, ltb, if◌then◌else◌,
  Option, none, some, List, [], ◌∷◌,
}

-- `execbytes` is the memory from the address of that name on.
pub record File : Type 0 where
  pub execname : List ℕ
  pub execbytes : ℕ → ℕ
  pub execlen : ℕ

abbrev pub max_execname_len : ℕ
max_execname_len = 256

-- `!strncmp(s, t, n)`
abbrev pub strncmp : List ℕ → List ℕ → (n : ℕ) → Bool
strncmp s t zero = true
strncmp [] [] (suc n) = true
strncmp [] (d ∷ t) (suc n) = false
strncmp (c ∷ s) [] (suc n) = false
strncmp (c ∷ s) (d ∷ t) (suc n) = (c == d) && strncmp s t n

-- `a <= b` of ints.
abbrev pub int_leb : ℕ → ℕ → Bool
int_leb a b = leb ((a + 2 ^ 31) % 2 ^ 32) ((b + 2 ^ 31) % 2 ^ 32)

-- How many bytes are copied to the buffer, and which.
abbrev pub Bytes : Type 0
Bytes = ℕ × (ℕ → ℕ)

-- The sum of offset and size, and the difference, are those of the machine.
unfoldable pub read_file : File → (offset size : ℕ) → Option Bytes
read_file f offset size =
    let size' =
      if int_leb ((offset + size) % 2 ^ 32) f.execlen
      then size
      else (f.execlen + 2 ^ 32 - offset) % 2 ^ 32 in
    if int_leb size' 0 then none else some (size', λ i. f.execbytes (offset + i))

unfoldable pub find_file : List File → (filename : List ℕ) → Option File
find_file [] filename = none
find_file (f ∷ fs) filename =
    if strncmp filename f.execname max_execname_len then some f else find_file fs filename

-- `filename` is not NULL; `buf` is an address. `none` for ERR_FAILURE.
unfoldable pub getbytes : List File → (filename : List ℕ) → (offset size buf : ℕ) → Option Bytes
unfolding read_file find_file
getbytes toc filename offset size buf =
    if leb (2 ^ 31) size || (buf == 0) || leb (2 ^ 31) offset || ltb size 4
    then none
    else elim (find_file toc filename) [ none ↦ none | some f ↦ read_file f offset size ]
