-- ===== src/Loader/Elf.antt =====
-- The headers of a program file. The buffers that getbytes fills are on the stack, at no address 0.
use p.Base.{
  ℕ, zero, suc, ◌+◌, ◌*◌, ◌%◌, ◌^◌, Bool, true, false, ◌&&◌, ◌==◌, ltb, if◌then◌else◌, Option, none,
  some, List, [], ◌∷◌,
}
use p.Loader.Memory.{word_at}
use p.Loader.Files.{File, Bytes, getbytes, strncmp, max_execname_len}
use p.Loader.Programs.{SimpleElf}

abbrev pub half_at : (ℕ → ℕ) → (addr : ℕ) → ℕ
half_at m p = m p + 256 * m (p + 1)

-- Any address of the stack.
abbrev pub buffer : ℕ
buffer = 1

-- Elf32_Ehdr has 52 bytes and Elf32_Shdr has 40.
abbrev pub ehdr_size : ℕ
ehdr_size = 52

abbrev pub shdr_size : ℕ
shdr_size = 40

-- The bytes of a buffer that getbytes has filled as a whole.
abbrev pub full : (size : ℕ) → Option Bytes → Option (ℕ → ℕ)
full size none = none
full size (some (n, bytes)) = if n == size then some bytes else none

pub record Shdr : Type 0 where
  pub sh_name : ℕ
  pub sh_addr : ℕ
  pub sh_offset : ℕ
  pub sh_size : ℕ

abbrev pub shdr_of : (ℕ → ℕ) → Shdr
shdr_of m = record {
  sh_name = word_at m 0;
  sh_addr = word_at m 12;
  sh_offset = word_at m 16;
  sh_size = word_at m 20;
}

abbrev max_section_name_len : ℕ
max_section_name_len = 10

-- `strcmp(s, buf) == 0`
unfoldable pub strcmp : List ℕ → (ℕ → ℕ) → Bool
strcmp [] buf = buf 0 == 0
strcmp (c ∷ s) buf = (buf 0 == c) && strcmp s (λ i. buf (suc i))

-- ".text", ".rodata", ".data" and ".bss"
abbrev pub text_name : List ℕ
text_name = 46 ∷ 116 ∷ 101 ∷ 120 ∷ 116 ∷ []

abbrev pub rodata_name : List ℕ
rodata_name = 46 ∷ 114 ∷ 111 ∷ 100 ∷ 97 ∷ 116 ∷ 97 ∷ []

abbrev pub data_name : List ℕ
data_name = 46 ∷ 100 ∷ 97 ∷ 116 ∷ 97 ∷ []

abbrev pub bss_name : List ℕ
bss_name = 46 ∷ 98 ∷ 115 ∷ 115 ∷ []

-- The name in its buffer, which is zero where nothing was read.
abbrev pub section_name : Bytes → ℕ → ℕ
section_name (n, bytes) i = if ltb i n then bytes i else 0

-- A section that has a name. One with another name only gives a message.
unfoldable pub place : Shdr → (name : ℕ → ℕ) → SimpleElf → SimpleElf
unfolding strcmp
place h name e =
    if strcmp text_name name
    then record e { e_txtoff = h.sh_offset; e_txtlen = h.sh_size; e_txtstart = h.sh_addr }
    else if strcmp rodata_name name
    then record e { e_rodatoff = h.sh_offset; e_rodatlen = h.sh_size; e_rodatstart = h.sh_addr }
    else if strcmp data_name name
    then record e { e_datoff = h.sh_offset; e_datlen = h.sh_size; e_datstart = h.sh_addr }
    else if strcmp bss_name name
    then record e { e_bsslen = h.sh_size; e_bssstart = h.sh_addr }
    else e

-- `se_hdr` without sections. A name of no characters also stands for NULL.
abbrev pub no_sections : (fname : List ℕ) (entry : ℕ) → SimpleElf
no_sections fname entry = record {
  e_fname = fname;
  e_entry = entry;
  e_txtoff = 0;
  e_txtlen = 0;
  e_txtstart = 0;
  e_datoff = 0;
  e_datlen = 0;
  e_datstart = 0;
  e_rodatoff = 0;
  e_rodatlen = 0;
  e_rodatstart = 0;
  e_bsslen = 0;
  e_bssstart = 0;
}

module _ (toc : List File) (fname : List ℕ) where
  unfoldable pub read_shdr : (offset : ℕ) → Option Shdr
  unfolding getbytes
  read_shdr offset = elim (full shdr_size (getbytes toc fname (offset % 2 ^ 32) shdr_size buffer)) [
    | none ↦ none
    | some bytes ↦ some (shdr_of bytes)
  ]

  unfoldable pub read_name : (offset : ℕ) → Option (ℕ → ℕ)
  unfolding getbytes
  read_name offset = elim (getbytes toc fname (offset % 2 ^ 32) max_section_name_len buffer) [
    | none ↦ none
    | some r ↦ some (section_name r)
  ]

  -- One round of the loop after the header is read.
  unfoldable pub load_section : (string_offset : ℕ) → Shdr → SimpleElf → Bool × SimpleElf
  unfolding read_name place
  load_section string_offset h e =
      if h.sh_name == 0 then (true, e) else elim (read_name (string_offset + h.sh_name)) [
        | none ↦ (false, e)
        | some name ↦ (true, place h name e)
      ]

  -- The sections from the i-th on, `n` of them.
  unfoldable pub load_sections : (shoff string_offset n i : ℕ) → SimpleElf → Bool × SimpleElf
  unfolding read_shdr load_section
  load_sections shoff string_offset zero i e = (true, e)
  load_sections shoff string_offset (suc n) i e = elim (read_shdr (shoff + i * shdr_size)) [
    | none ↦ (false, e)
    | some h ↦
        let (found, e') = load_section string_offset h e in
        let rest = load_sections shoff string_offset n (suc i) e' in
        if found then rest else (false, e')
  ]

  -- Whether the answer is ELF_SUCCESS, and `se_hdr`.
  unfoldable pub elf_load_helper : Bool × SimpleElf
  unfolding getbytes read_shdr load_sections
  elf_load_helper = elim (full ehdr_size (getbytes toc fname 0 ehdr_size buffer)) [
    | none ↦ (false, no_sections [] 0)
    | some hdr ↦ elim (read_shdr (word_at hdr 32 + half_at hdr 50 * shdr_size)) [
      | none ↦ (false, no_sections fname (word_at hdr 24))
      | some strings ↦
          load_sections (word_at hdr 32) strings.sh_offset (half_at hdr 48) 0
            (no_sections fname (word_at hdr 24))
    ]
  ]

  -- The magic number, ET_EXEC, EM_386 and EV_CURRENT.
  abbrev pub is_elf : (ℕ → ℕ) → Bool
  is_elf hdr =
      (hdr 0 == 0x7f)
      && (hdr 1 == 69)
      && (hdr 2 == 76)
      && (hdr 3 == 70)
      && (half_at hdr 16 == 2)
      && (half_at hdr 18 == 3)
      && (word_at hdr 20 == 1)

  -- Whether the answer is ELF_SUCCESS.
  unfoldable pub elf_check_header : Bool
  unfolding getbytes
  elf_check_header = elim (full ehdr_size (getbytes toc fname 0 ehdr_size buffer)) [
    | none ↦ false
    | some hdr ↦ is_elf hdr
  ]

  -- The loop over the table, from some entry on.
  unfoldable pub check_entries : List File → Bool
  unfolding elf_check_header
  check_entries [] = false
  check_entries (f ∷ fs) =
      let rest = check_entries fs in
      if strncmp fname f.execname max_execname_len && elf_check_header then true else rest

  -- Whether the answer is PROG_PRESENT_VALID.
  unfoldable pub check_program : Bool
  unfolding check_entries
  check_program = check_entries toc
