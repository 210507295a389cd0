-- ===== src/Loader/Sections.antt =====
-- What the loader finds in the section table.
use p.Base.{
  ℕ, zero, suc, ◌+◌, ◌*◌, ◌≡◌, ◌≢◌, refl, ap, ◌∙◌, true, false, ◌==◌, if◌then◌else◌, Bool-cases,
  ≢→ne, inl, inr, some, List, [], ◌∷◌, arith,
}
use p.Loader.Memory.{word_at}
use p.Loader.Files.{File, getbytes}
use p.Loader.Programs.{SimpleElf}
use p.Loader.Elf.{
  half_at, buffer, ehdr_size, shdr_size, Shdr, strcmp, text_name, rodata_name, data_name, bss_name,
  place, read_shdr, read_name, load_section, load_sections, no_sections, elf_load_helper,
}

-- What the last section of a name gives, or what stands for none.
abbrev pub last_named {ℓ} :
    {A : Type ℓ} → (of : Shdr → A) (name : List ℕ) → List (Shdr × (ℕ → ℕ)) → A → A
last_named of name [] default = default
last_named of name ((h, own) ∷ sections) default =
    last_named of name sections (if strcmp name own then of h else default)

abbrev pub segment_of : Shdr → ℕ × ℕ × ℕ
segment_of h = (h.sh_offset, h.sh_size, h.sh_addr)

abbrev pub bss_of : Shdr → ℕ × ℕ
bss_of h = (h.sh_size, h.sh_addr)

-- `se_hdr` with its segments.
abbrev with_segments : SimpleElf → (text data_section rodata : ℕ × ℕ × ℕ) (bss : ℕ × ℕ) → SimpleElf
with_segments e text data_section rodata bss = record {
  e_fname = e.e_fname;
  e_entry = e.e_entry;
  e_txtoff = text.0;
  e_txtlen = text.1;
  e_txtstart = text.2;
  e_datoff = data_section.0;
  e_datlen = data_section.1;
  e_datstart = data_section.2;
  e_rodatoff = rodata.0;
  e_rodatlen = rodata.1;
  e_rodatstart = rodata.2;
  e_bsslen = bss.0;
  e_bssstart = bss.1;
}

-- Each segment is the last section of its name.
abbrev pub with_sections : List (Shdr × (ℕ → ℕ)) → SimpleElf → SimpleElf
with_sections sections e =
    with_segments e
      (last_named segment_of text_name sections (e.e_txtoff, e.e_txtlen, e.e_txtstart))
      (last_named segment_of data_name sections (e.e_datoff, e.e_datlen, e.e_datstart))
      (last_named segment_of rodata_name sections (e.e_rodatoff, e.e_rodatlen, e.e_rodatstart))
      (last_named bss_of bss_name sections (e.e_bsslen, e.e_bssstart))

no_two_names :
    (own : ℕ → ℕ)
    → ((strcmp text_name own ≡ true)
        → (strcmp rodata_name own ≡ false)
          × (strcmp data_name own ≡ false)
          × (strcmp bss_name own ≡ false))
      × ((strcmp rodata_name own ≡ true)
          → (strcmp data_name own ≡ false) × (strcmp bss_name own ≡ false))
      × ((strcmp data_name own ≡ true) → strcmp bss_name own ≡ false)
unfolding strcmp
no_two_names own = (
  λ e. (ground arith, ground arith, ground arith),
  λ e. (ground arith, ground arith),
  λ e. ground arith,
)

with_sections-place :
    (h : Shdr) (own : ℕ → ℕ) (sections : List (Shdr × (ℕ → ℕ))) (e : SimpleElf)
    → with_sections sections (place h own e)
      ≡ with_segments e
          (last_named segment_of text_name sections
            (if strcmp text_name own then segment_of h else (e.e_txtoff, e.e_txtlen, e.e_txtstart)))
          (last_named segment_of data_name sections
            (if strcmp data_name own then segment_of h else (e.e_datoff, e.e_datlen, e.e_datstart)))
          (last_named segment_of rodata_name sections (
            if strcmp rodata_name own
            then segment_of h
            else (e.e_rodatoff, e.e_rodatlen, e.e_rodatstart)))
          (last_named bss_of bss_name sections
            (if strcmp bss_name own then bss_of h else (e.e_bsslen, e.e_bssstart)))
unfolding place
with_sections-place h own sections e =
    let (by_text, by_rodata, by_data) = no_two_names own in
    elim (Bool-cases (strcmp text_name own)) [
      | inl text ↦ let others = by_text text in rw (others.2, others.1, others.0, text) refl
      | inr no_text ↦ elim (Bool-cases (strcmp rodata_name own)) [
        | inl rodata ↦
            let others = by_rodata rodata in rw (others.1, others.0, rodata, no_text) refl
        | inr no_rodata ↦ elim (Bool-cases (strcmp data_name own)) [
          | inl is_data ↦
              let no_bss = by_data is_data in rw (no_bss, is_data, no_rodata, no_text) refl
          | inr no_data ↦ elim (Bool-cases (strcmp bss_name own)) [
            | inl bss ↦ rw (bss, no_data, no_rodata, no_text) refl
            | inr no_bss ↦ rw (no_bss, no_data, no_rodata, no_text) refl
          ]
        ]
      ]
    ]

module _ (toc : List File) (fname : List ℕ) (shoff string_offset : ℕ) where
  -- The named sections from the i-th on, `n` in all, each with its header and its name.
  pub data Sections : (n i : ℕ) → List (Shdr × (ℕ → ℕ)) → Type 0 where
    done : {i : ℕ} → Sections zero i []
    unnamed :
        {n i : ℕ} {sections : List (Shdr × (ℕ → ℕ))} (h : Shdr)
        → read_shdr toc fname (shoff + i * shdr_size) ≡ some h
        → h.sh_name ≡ 0
        → Sections n (suc i) sections
        → Sections (suc n) i sections
    named :
        {n i : ℕ} {sections : List (Shdr × (ℕ → ℕ))} (h : Shdr) (own : ℕ → ℕ)
        → read_shdr toc fname (shoff + i * shdr_size) ≡ some h
        → h.sh_name ≢ 0
        → read_name toc fname (string_offset + h.sh_name) ≡ some own
        → Sections n (suc i) sections
        → Sections (suc n) i ((h, own) ∷ sections)

  eq_test : {a : ℕ} → a ≡ 0 → (a == 0) ≡ true
  eq_test e = ground arith

  load_sections-with_sections :
      {n i : ℕ} {sections : List (Shdr × (ℕ → ℕ))} (e : SimpleElf)
      → Sections n i sections
      → load_sections toc fname shoff string_offset n i e ≡ (true, with_sections sections e)
  unfolding load_sections load_section
  load_sections-with_sections e Sections.done = refl
  load_sections-with_sections e (Sections.unnamed h is_header nameless rest) =
      rw (load_sections, is_header, load_section, eq_test nameless)
        (load_sections-with_sections e rest)
  load_sections-with_sections e
        (Sections.named {sections = sections} h own is_header has_name is_name rest) =
      rw (load_sections, is_header, load_section, ≢→ne h.sh_name 0 has_name, is_name)
        (load_sections-with_sections (place h own e) rest
          ∙ ap (λ e'. (true, e')) (with_sections-place h own sections e))

-- When the header of a program file, the header of its string table, and the header and name of
-- every section can be read, elf_load_helper answers success, with the entry point of the header,
-- and for text, data, read-only data and bss what the last section of that name says, or zeros
-- when there is none.
pub elf_load_helper-with_sections :
    (toc : List File) (fname : List ℕ) (hdr : ℕ → ℕ) (strings : Shdr)
    (sections : List (Shdr × (ℕ → ℕ)))
    → getbytes toc fname 0 ehdr_size buffer ≡ some (ehdr_size, hdr)
    → read_shdr toc fname (word_at hdr 32 + half_at hdr 50 * shdr_size) ≡ some strings
    → Sections toc fname (word_at hdr 32) strings.sh_offset (half_at hdr 48) 0 sections
    → elf_load_helper toc fname
      ≡ (true, with_sections sections (no_sections fname (word_at hdr 24)))
unfolding elf_load_helper
elf_load_helper-with_sections toc fname hdr strings sections header table found =
    rw (elf_load_helper, header, table)
      (load_sections-with_sections toc fname (word_at hdr 32) strings.sh_offset
        (no_sections fname (word_at hdr 24)) found)
