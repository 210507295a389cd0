-- ===== src/Loader/Programs.antt =====
-- Segments of a program file in user memory.
use p.Base.{
  ℕ, ◌+◌, ◌^◌, ◌&&◌, ◌||◌, ◌==◌, leb, ltb, if◌then◌else◌, Option, none, some, List, memcpy,
}
use p.Loader.Files.{File, Bytes, getbytes}

-- `retval`: user memory, ERR_FAILURE or ERR_NOMEM.
pub data Loaded : Type 0 where
  loaded : (ℕ → ℕ) → Loaded
  failed no_memory : Loaded

-- The address of a block and the kernel memory, as `smalloc` leaves it, if it gives a block.
abbrev pub Answer : Type 0
Answer = Option (ℕ × (ℕ → ℕ))

-- What follows the read into the buffer.
unfoldable pub copy_segment :
    (buf : ℕ) → (kernel : ℕ → ℕ) → Option Bytes → (start len : ℕ) → (ℕ → ℕ) → Loaded
copy_segment buf kernel none start len m = Loaded.failed
copy_segment buf kernel (some (n, bytes)) start len m =
    Loaded.loaded (memcpy m (memcpy kernel bytes buf 0 n) start buf len)

unfoldable pub load_segment :
    Answer → List File → (filename : List ℕ) → (start len offset : ℕ) → (ℕ → ℕ) → Loaded
unfolding getbytes copy_segment
load_segment answer toc filename start len offset m =
    if (len == 0) || leb (2 ^ 31) len then Loaded.loaded m else elim answer [
      | none ↦ Loaded.no_memory
      | some (buf, kernel) ↦
          copy_segment buf kernel (getbytes toc filename offset len buf) start len m
    ]

pub record SimpleElf : Type 0 where
  pub e_fname : List ℕ
  pub e_entry : ℕ
  pub e_txtoff : ℕ
  pub e_txtlen : ℕ
  pub e_txtstart : ℕ
  pub e_datoff : ℕ
  pub e_datlen : ℕ
  pub e_datstart : ℕ
  pub e_rodatoff : ℕ
  pub e_rodatlen : ℕ
  pub e_rodatstart : ℕ
  pub e_bsslen : ℕ
  pub e_bssstart : ℕ

unfoldable pub and_then : Loaded → ((ℕ → ℕ) → Loaded) → Loaded
and_then (Loaded.loaded m) next = next m
and_then Loaded.failed next = Loaded.failed
and_then Loaded.no_memory next = Loaded.no_memory

-- `memset(start, 0, len)`
unfoldable pub clear : (start len : ℕ) → (ℕ → ℕ) → ℕ → ℕ
clear start len m a = if leb start a && ltb a (start + len) then 0 else m a

unfoldable pub load_program : (txt dat rodat : Answer) → List File → SimpleElf → (ℕ → ℕ) → Loaded
unfolding load_segment and_then clear
load_program txt dat rodat toc se_hdr m =
    and_then
      (load_segment txt toc se_hdr.e_fname se_hdr.e_txtstart se_hdr.e_txtlen se_hdr.e_txtoff m)
      (λ m1.
        and_then
          (load_segment dat toc se_hdr.e_fname se_hdr.e_datstart se_hdr.e_datlen se_hdr.e_datoff m1)
          (λ m2.
            and_then
              (load_segment rodat toc se_hdr.e_fname se_hdr.e_rodatstart se_hdr.e_rodatlen
                se_hdr.e_rodatoff m2)
              (λ m3. Loaded.loaded (clear se_hdr.e_bssstart se_hdr.e_bsslen m3))))
