-- ===== src/Loader/Readfile.antt =====
-- readfile of kern/syscalls/misc_syscalls.c.
use p.Base.{
  ℕ, zero, suc, ◌+◌, ◌%◌, ◌^◌, Bool, true, false, ◌==◌, if◌then◌else◌, Option, none, some, List, [],
  ◌∷◌,
}
use p.Vm.{Vm, is_pointer_valid}
use p.Exec.{read_byte}
use p.Loader.Files.{File, Bytes, getbytes}
use p.Loader.Buffer.{store_bytes}

-- A name before its 0, a name that is too long, or a byte that the task may not read.
pub data Name : Type 0 where
  is_name : List ℕ → Name
  too_long name_inval : Name

abbrev pub max_file_name : ℕ
max_file_name = 128

abbrev more_name : ℕ → Option Name → Option Name
more_name c none = none
more_name c (some (Name.is_name cs)) = some (Name.is_name (c ∷ cs))
more_name c (some Name.too_long) = some Name.too_long
more_name c (some Name.name_inval) = some Name.name_inval

-- One round of the loop, for the answer of `is_pointer_valid`; `rest` are the later ones.
unfoldable pub name_byte : Option Bool → (c : ℕ) → (rest : Option Name) → Option Name
name_byte none c rest = none
name_byte (some false) c rest = some Name.name_inval
name_byte (some true) c rest = if c == 0 then some (Name.is_name []) else more_name c rest

-- `n` more characters may follow.
unfoldable pub scan_name : (fuel : ℕ) → Vm → (n ptr : ℕ) → Option Name
unfolding name_byte
scan_name fuel t zero ptr = some Name.too_long
scan_name fuel t (suc n) ptr =
    name_byte (is_pointer_valid fuel ptr 1 t) (read_byte t ptr)
      (scan_name fuel t n ((ptr + 1) % 2 ^ 32))

-- ERR_INVAL, ERR_FAILURE, or the number of bytes and the kernel with the bytes at the buffer; or a
-- page fault at the buffer, which page_fault_handler ends.
pub data Answer : Type 0 where
  err_inval err_failure faults : Answer
  stored : ℕ → Vm → Answer

abbrev after_copy : ℕ → Option Vm → Answer
after_copy n none = Answer.faults
after_copy n (some u) = Answer.stored n u

abbrev answer_of : (buf : ℕ) → Vm → Option Bytes → Answer
answer_of buf t none = Answer.err_failure
answer_of buf t (some (n, src)) = after_copy n (store_bytes src buf n t)

unfoldable pub read_named : Vm → List File → Name → (buf size offset : ℕ) → Answer
unfolding getbytes store_bytes
read_named t toc Name.name_inval buf size offset = Answer.err_inval
read_named t toc Name.too_long buf size offset = Answer.err_failure
read_named t toc (Name.is_name []) buf size offset = Answer.err_failure
read_named t toc (Name.is_name (c ∷ cs)) buf size offset =
    answer_of buf t (getbytes toc (c ∷ cs) offset size buf)

-- `none` when an assertion of the kernel fails.
unfoldable pub readfile_handler :
    (fuel : ℕ) → Vm → List File → (filename buf size offset : ℕ) → Option Answer
unfolding scan_name read_named
readfile_handler fuel t toc filename buf size offset =
    elim (scan_name fuel t max_file_name filename) [
      | none ↦ none
      | some name ↦ some (read_named t toc name buf size offset)
    ]
