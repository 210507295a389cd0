-- ===== src/Loader/Tests.antt =====
-- Programs at concrete addresses.
use p.Base.{
  ◌*◌, ℕ, zero, suc, ◌+◌, ◌-◌, ◌≡◌, inl, inr, refl, ◌==◌, true, false, if◌then◌else◌, some, List,
  [], ◌∷◌, arith,
}
use p.Frames.{user_mem_start}
use p.Vm.{Vm, stack_start, default_stack_size}
use p.Vm.Entry.{entry_default, present, user_mode}
use p.Loader.Memory.{word_at, SameBut}
use p.Loader.Args.{copy_user_args}
use p.Loader.Arguments.{ArgsAt, copy_user_args-ArgsAt}
use p.Loader.Files.{File, find_file, getbytes}
use p.Loader.Programs.{loaded, failed, load_segment, SimpleElf, load_program}
use p.Loader.Segments.{expected, load_segment-expected}
use p.Loader.Image.{image, load_program-image}
use p.Loader.Elf.{
  Shdr, shdr_of, section_name, elf_load_helper, elf_check_header, check_program, no_sections,
  read_shdr, read_name, buffer, ehdr_size,
}
use p.Loader.Sections.{Sections, with_sections, elf_load_helper-with_sections}

-- "ls" and "-a".
abbrev two_args : List (List ℕ)
two_args = (108 ∷ 115 ∷ []) ∷ (45 ∷ 97 ∷ []) ∷ []

abbrev fresh : ℕ → ℕ
fresh a = 0

-- 20 bytes for the frame, 12 for the pointers, and 7 for the strings.
abbrev top_of_two : ℕ
top_of_two = 0xc0000000 - 39

copy_user_args-ArgsAt_example :
    (m' : ℕ → ℕ) × (copy_user_args true two_args fresh ≡ some (top_of_two, m'))
    × (word_at m' (top_of_two + 4) ≡ 2)
    × ArgsAt m' (word_at m' (top_of_two + 8)) two_args
    × (word_at m' (top_of_two + 12) ≡ stack_start)
    × (word_at m' (top_of_two + 16) ≡ stack_start - default_stack_size)
    × SameBut top_of_two stack_start fresh m'
copy_user_args-ArgsAt_example =
    copy_user_args-ArgsAt top_of_two two_args fresh (omega arith) (omega arith) (λ a low high. refl)

abbrev byte_of : List ℕ → ℕ → ℕ
byte_of [] i = 0
byte_of (b ∷ bs) zero = b
byte_of (b ∷ bs) (suc i) = byte_of bs i

-- An ELF header, three section headers, their names, and eight bytes of text.
abbrev program : List ℕ
program =
    127 ∷ 69 ∷ 76 ∷ 70 ∷ 1 ∷ 1 ∷ 1 ∷ 0 ∷ 0 ∷ 0 ∷ 0 ∷ 0 ∷ 0 ∷ 0 ∷ 0 ∷ 0 ∷ 2 ∷ 0 ∷ 3 ∷ 0 ∷ 1 ∷ 0 ∷ 0
    ∷ 0 ∷ 0 ∷ 0 ∷ 0 ∷ 1 ∷ 0 ∷ 0 ∷ 0 ∷ 0 ∷ 52 ∷ 0 ∷ 0 ∷ 0 ∷ 0 ∷ 0 ∷ 0 ∷ 0 ∷ 52 ∷ 0 ∷ 0 ∷ 0 ∷ 0 ∷ 0
    ∷ 40 ∷ 0 ∷ 3 ∷ 0 ∷ 2 ∷ 0 ∷ 0 ∷ 0 ∷ 0 ∷ 0 ∷ 0 ∷ 0 ∷ 0 ∷ 0 ∷ 0 ∷ 0 ∷ 0 ∷ 0 ∷ 0 ∷ 0 ∷ 0 ∷ 0 ∷ 0 ∷ 0
    ∷ 0 ∷ 0 ∷ 0 ∷ 0 ∷ 0 ∷ 0 ∷ 0 ∷ 0 ∷ 0 ∷ 0 ∷ 0 ∷ 0 ∷ 0 ∷ 0 ∷ 1 ∷ 0 ∷ 0 ∷ 0 ∷ 0 ∷ 0 ∷ 0 ∷ 0 ∷ 1 ∷ 0
    ∷ 0 ∷ 0 ∷ 1 ∷ 0 ∷ 0 ∷ 0 ∷ 0 ∷ 0 ∷ 0 ∷ 0 ∷ 0 ∷ 0 ∷ 0 ∷ 1 ∷ 189 ∷ 0 ∷ 0 ∷ 0 ∷ 8 ∷ 0 ∷ 0 ∷ 0 ∷ 0
    ∷ 0 ∷ 0 ∷ 0 ∷ 0 ∷ 0 ∷ 0 ∷ 0 ∷ 1 ∷ 0 ∷ 0 ∷ 0 ∷ 0 ∷ 0 ∷ 0 ∷ 0 ∷ 7 ∷ 0 ∷ 0 ∷ 0 ∷ 3 ∷ 0 ∷ 0 ∷ 0 ∷ 0
    ∷ 0 ∷ 0 ∷ 0 ∷ 0 ∷ 0 ∷ 0 ∷ 0 ∷ 172 ∷ 0 ∷ 0 ∷ 0 ∷ 17 ∷ 0 ∷ 0 ∷ 0 ∷ 0 ∷ 0 ∷ 0 ∷ 0 ∷ 0 ∷ 0 ∷ 0 ∷ 0
    ∷ 1 ∷ 0 ∷ 0 ∷ 0 ∷ 0 ∷ 0 ∷ 0 ∷ 0 ∷ 0 ∷ 46 ∷ 116 ∷ 101 ∷ 120 ∷ 116 ∷ 0 ∷ 46 ∷ 115 ∷ 104 ∷ 115
    ∷ 116 ∷ 114 ∷ 116 ∷ 97 ∷ 98 ∷ 0 ∷ 144 ∷ 144 ∷ 144 ∷ 144 ∷ 144 ∷ 144 ∷ 144 ∷ 195 ∷ []

abbrev hi : File
hi = record { execname = 104 ∷ 105 ∷ []; execbytes = byte_of program; execlen = 197 }

abbrev toc : List File
toc = record { execname = 108 ∷ 115 ∷ []; execbytes = λ i. 7; execlen = 9 } ∷ hi ∷ []

found_hi : find_file toc (104 ∷ 105 ∷ []) ≡ some hi
unfolding find_file
found_hi = refl

-- What stood in the block of the buffer.
abbrev stale : ℕ → ℕ
stale a = 33

-- The last of the bytes come from the block.
load_segment-expected_example :
    load_segment (some (4096, stale)) toc (104 ∷ 105 ∷ []) 0x01000000 16 189 fresh
    ≡ expected hi 4096 stale 0x01000000 16 189 fresh
load_segment-expected_example =
    load_segment-expected toc (104 ∷ 105 ∷ []) hi 4096 stale 0x01000000 16 189 fresh found_hi
      (omega arith) (omega arith) (omega arith)

short_run : load_segment (some (4096, stale)) toc (104 ∷ 105 ∷ []) 0x01000000 3 189 fresh ≡ failed
unfolding load_segment getbytes
short_run = refl

abbrev hi_elf : SimpleElf
hi_elf = record (no_sections (104 ∷ 105 ∷ []) 0x01000000) {
  e_txtoff = 189;
  e_txtlen = 8;
  e_txtstart = 0x01000000;
  e_bsslen = 64;
  e_bssstart = 0x02000000;
}

load_program-image_example :
    load_program (some (4096, stale)) (some (8192, stale)) (some (12288, stale)) toc hi_elf fresh
    ≡ loaded (image hi hi_elf fresh)
load_program-image_example =
    load_program-image toc hi (omega arith) hi_elf 4096 8192 12288 stale stale stale fresh found_hi
      (inr (omega arith, omega arith)) (inl refl) (inl refl) (omega arith, omega arith, omega arith)
      (omega arith, omega arith, omega arith)

check_run :
    (check_program toc (104 ∷ 105 ∷ []) ≡ true) × (check_program toc (108 ∷ 115 ∷ []) ≡ false)
unfolding check_program elf_check_header getbytes
check_run = (refl, refl)

abbrev hi_hdr : ℕ → ℕ
hi_hdr i = byte_of program (0 + i)

abbrev text_shdr : Shdr
text_shdr = record { sh_name = 1; sh_addr = 0x01000000; sh_offset = 189; sh_size = 8 }

abbrev strings_shdr : Shdr
strings_shdr = record { sh_name = 7; sh_addr = 0; sh_offset = 172; sh_size = 17 }

abbrev name_at : (offset n : ℕ) → ℕ → ℕ
name_at offset n = section_name (n, λ i. byte_of program (offset + i))

hi_header : getbytes toc (104 ∷ 105 ∷ []) 0 ehdr_size buffer ≡ some (ehdr_size, hi_hdr)
unfolding getbytes
hi_header = refl

hi_strings : read_shdr toc (104 ∷ 105 ∷ []) 132 ≡ some strings_shdr
unfolding read_shdr
hi_strings = refl

hi-Sections :
    Sections toc
      (104 ∷ 105 ∷ [])
      52
      172
      3
      0
      ((text_shdr, name_at (173) 10) ∷ (strings_shdr, name_at (179) 10) ∷ [])
unfolding read_shdr read_name
hi-Sections = Sections.unnamed (shdr_of (λ i. 0)) refl refl (
    Sections.named text_shdr (name_at (173) 10) refl (omega arith) refl
      (Sections.named strings_shdr (name_at (179) 10) refl (omega arith) refl Sections.done))

elf_load_helper-with_sections_example : elf_load_helper toc (104 ∷ 105 ∷ []) ≡ (
  true,
  with_sections
      ((text_shdr, name_at (173) 10) ∷ (strings_shdr, name_at (179) 10) ∷ [])
      (no_sections (104 ∷ 105 ∷ []) 0x01000000),
)
elf_load_helper-with_sections_example =
    elf_load_helper-with_sections toc (104 ∷ 105 ∷ []) hi_hdr strings_shdr
      ((text_shdr, name_at (173) 10) ∷ (strings_shdr, name_at (179) 10) ∷ []) hi_header hi_strings
      hi-Sections

-- A page of user memory with the name, and the first 4 MB of the kernel.
abbrev memory : Vm
memory = record {
  frames = record { free_frames_arr = λ i. 0; free_list_head = 0 };
  frame_ref_count = λ i. 1;
  word = λ page i.
      if page == 4096
      then if i == 4 then 8192 + 7 else if i == 0 then 12288 + 3 else entry_default
      else if page == 12288
      then i * 4096 + 3
      else if i == 0
      then user_mem_start + 4096 + (present + user_mode)
      else entry_default;
  page = λ frame i. if i == 0 then 104 else if i == 1 then 105 else 0;
  cr3 = 4096;
  heap = [];
}
