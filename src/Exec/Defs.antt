-- ===== src/Exec/Defs.antt =====
-- User memory is read through the page tables of Vm; the kernel's copies stand in its heap.
use p.Base.{
  ℕ, zero, suc, ◌+◌, ◌*◌, ◌%◌, ◌^◌, Bool, true, false, ◌&&◌, ◌||◌, not, ◌==◌, leb, if◌then◌else◌,
  Option, none, some, List, [], ◌∷◌, ◌++◌, update,
}
use p.Vm.{Vm, is_pointer_valid}
use p.Vm.Entry.{entry_addr, pd_index, pt_index}

-- A byte of user memory, and a word of four.
abbrev pub read_byte : Vm → (addr : ℕ) → ℕ
read_byte t addr =
    t.page (entry_addr (t.word (entry_addr (t.word t.cr3 (pd_index addr))) (pt_index addr)))
      (addr % 4096)

abbrev pub read_word : Vm → (addr : ℕ) → ℕ
read_word t a =
    read_byte t a
    + read_byte t (a + 1) * 256
    + read_byte t (a + 2) * 65536
    + read_byte t (a + 3) * 16777216

-- The bytes written to the buffer, the last of them 0, or an error.
pub data Copy : Type 0 where
  copied : List ℕ → Copy
  err_inval err_big : Copy

abbrev pub prepend : ℕ → Option Copy → Option Copy
prepend c none = none
prepend c (some (Copy.copied cs)) = some (Copy.copied (c ∷ cs))
prepend c (some Copy.err_inval) = some Copy.err_inval
prepend c (some Copy.err_big) = some Copy.err_big

-- One round of the loop, for the answer of `is_pointer_valid`; `rest` are the later ones.
unfoldable pub copy_byte : Option Bool → (c : ℕ) → Option Copy → Option Copy
copy_byte none c rest = none
copy_byte (some false) c rest = some Copy.err_inval
copy_byte (some true) c rest = if c == 0 then some (Copy.copied (0 ∷ [])) else prepend c rest

-- `n` more bytes fit.
unfoldable pub copy_bytes : (fuel : ℕ) → Vm → (n ptr : ℕ) → Option Copy
unfolding copy_byte
copy_bytes fuel t zero ptr = some Copy.err_big
copy_bytes fuel t (suc n) ptr =
    copy_byte (is_pointer_valid fuel ptr 1 t) (read_byte t ptr)
      (copy_bytes fuel t n ((ptr + 1) % 2 ^ 32))

-- `buf` is memory of the kernel, not NULL; `max_size` is the bit pattern of an int.
unfoldable pub copy_user_data : (fuel : ℕ) → Vm → (ptr max_size : ℕ) → Option Copy
unfolding copy_bytes
copy_user_data fuel t ptr max_size =
    if (ptr == 0) || (max_size == 0) || leb (2 ^ 31) max_size
    then some Copy.err_inval
    else copy_bytes fuel t max_size ptr

abbrev pub argname_max : ℕ
argname_max = 255

abbrev pub num_args_max : ℕ
num_args_max = 16

pub data Count : Type 0 where
  counted : ℕ → Count
  count_inval count_big : Count

-- The loop of `get_num_args`: the pointer that is read is tested, not the place it is read from.
unfoldable pub count_args : (fuel : ℕ) → Vm → (argvec n count : ℕ) → Option Count
count_args fuel t argvec zero count = some Count.count_big
count_args fuel t argvec (suc n) count =
    let arg = read_word t (argvec + 4 * count) in
    elim (is_pointer_valid fuel arg 4 t) [
      | none ↦ none
      | some valid ↦
          if valid && not (arg == 0)
          then count_args fuel t argvec n (count + 1)
          else some (Count.counted count)
    ]

unfoldable pub get_num_args : (fuel : ℕ) → Vm → (argvec : ℕ) → Option Count
unfolding count_args
get_num_args fuel t argvec = elim (is_pointer_valid fuel argvec 4 t) [
  | none ↦ none
  | some valid ↦
      if valid then count_args fuel t argvec (num_args_max + 1) 0 else some Count.count_inval
]

-- The heap of the kernel: the answers that `smalloc` will give, the words of pointer arrays and the
-- strings of buffers by address, and the calls of `sfree`, in order.
pub record Heap : Type 0 where
  pub answers : List (Option ℕ)
  pub word : ℕ → ℕ
  pub string : ℕ → List ℕ
  pub freed : List (ℕ × ℕ)

unfoldable pub smalloc : Heap → Option ℕ × Heap
smalloc h = elim h.answers [ [] ↦ (none, h) | a ∷ rest ↦ (a, record h { answers = rest }) ]

unfoldable pub sfree : (ptr size : ℕ) → Heap → Heap
sfree ptr size h = record h { freed = h.freed ++ (ptr, size) ∷ [] }

-- The loop of `free_args` from the argument `i` on.
unfoldable pub free_each : (argvec i num : ℕ) → Heap → Heap
unfolding sfree
free_each argvec i zero h = h
free_each argvec i (suc num) h =
    free_each argvec (i + 1) num (sfree (h.word (argvec + 4 * i)) argname_max h)

unfoldable pub free_args : (argvec num : ℕ) → Heap → Heap
unfolding free_each sfree
free_args argvec num h =
    sfree argvec ((num + 1) * 4) (sfree (h.word (argvec + 4 * num)) 1 (free_each argvec 0 num h))

-- The empty string behind the last argument.
unfoldable pub end_args : (argvec i : ℕ) → Option ℕ × Heap → Option ℕ × Heap
unfolding free_args
end_args argvec i (none, h) = (none, free_args argvec i h)
end_args argvec i (some arg, h) = (
  some argvec,
  record h { word = update h.word (argvec + 4 * i) arg; string = update h.string arg (0 ∷ []) },
)

abbrev pub is_copied : Copy → Option (List ℕ)
is_copied (Copy.copied cs) = some cs
is_copied Copy.err_inval = none
is_copied Copy.err_big = none

-- An argument in its buffer is entered in the array; on an error the arguments before it are freed.
unfoldable pub enter_arg : (argvec i arg : ℕ) → Option (List ℕ) → Heap → Bool × Heap
unfolding free_args
enter_arg argvec i arg none h = (false, free_args argvec i h)
enter_arg argvec i arg (some cs) h =
    (true, record h { word = update h.word (argvec + 4 * i) arg; string = update h.string arg cs })

-- The same for a copy that may have run out of fuel.
unfoldable pub arg_copied : (argvec i arg : ℕ) → Option Copy → Heap → Option (Bool × Heap)
unfolding enter_arg
arg_copied argvec i arg none h = none
arg_copied argvec i arg (some c) h = some (enter_arg argvec i arg (is_copied c) h)

module _ (fuel : ℕ) (t : Vm) where
  unfoldable pub copy_arg : (user argvec i : ℕ) → Option ℕ × Heap → Option (Bool × Heap)
  unfolding free_args copy_user_data arg_copied
  copy_arg user argvec i (none, h) = some (false, free_args argvec i h)
  copy_arg user argvec i (some arg, h) =
      arg_copied argvec i arg (copy_user_data fuel t (read_word t (user + 4 * i)) argname_max) h

  -- The rest of the loop, after the argument before the i-th one.
  unfoldable pub copy_each : (user argvec num i : ℕ) → Heap → Option (Option ℕ × Heap)
  unfolding smalloc copy_arg end_args
  copy_each user argvec zero i h = some (end_args argvec i (smalloc h))
  copy_each user argvec (suc num) i h =
      let rest = copy_each user argvec num (i + 1) in
      elim (copy_arg user argvec i (smalloc h)) [
        | none ↦ none
        | some r ↦ if r.0 then rest r.1 else some (none, r.1)
      ]

  unfoldable pub copy_args : (num user : ℕ) → Heap → Option (Option ℕ × Heap)
  unfolding smalloc copy_each
  copy_args num user h =
      let (a, h') = smalloc h in
      elim a [ none ↦ some (none, h') | some argvec ↦ copy_each user argvec num 0 h' ]
