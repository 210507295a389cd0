-- ===== src/Loader/Args.antt =====
-- The user stack and the kernel stack of a new program, in kern/core/task.c.
use p.Base.{
  ℕ, ◌+◌, ◌-◌, ◌*◌, ◌%◌, ◌^◌, Bool, if◌then◌else◌, Option, none, some, List, [], ◌∷◌, ◌++◌, length,
  update,
}
use p.Vm.{stack_start, default_stack_size}
use p.Loader.Memory.{put_word, put_words, strcpy}

-- `user_stack_top -= n`
unfoldable pub back : (top n : ℕ) → ℕ
back top n = (top + 2 ^ 32 - n) % 2 ^ 32

-- The pointers `argvec_copy`, `user_stack_top` and the memory.
abbrev pub Pushed : Type 0
Pushed = List ℕ × ℕ × (ℕ → ℕ)

-- The loop over the arguments.
unfoldable pub push_strings : (argvec : List (List ℕ)) → (top : ℕ) → (ℕ → ℕ) → Pushed
unfolding back strcpy
push_strings [] top m = ([], top, m)
push_strings (s ∷ ss) top m =
    let arg = back top (length s + 1) in
    let (pointers, low, m') = push_strings ss arg (strcpy m arg s) in (arg ∷ pointers, low, m')

-- What follows the loop. A store through `user_stack_top` itself is of one byte, as it is a char pointer.
unfoldable pub push_frame : (num_args : ℕ) → Pushed → ℕ × (ℕ → ℕ)
unfolding back put_words
push_frame num_args (pointers, top, m) =
    let empty = back top 1 in
    let argvec_usr = back empty ((num_args + 1) * 4) in
    let low = back argvec_usr 4 in
    let high = back low 4 in
    let argv = back high 4 in
    let argc = back argv 4 in
    let m' = put_words (update m empty 0) argvec_usr (pointers ++ empty ∷ []) in
    let m'' =
      put_word (put_word (put_word m' low (stack_start - default_stack_size)) high stack_start) argv
        argvec_usr in
    (back argc 4, update (update m'' argc (num_args % 256)) (back argc 4) 0)

-- `argvec` holds `num_args` strings, written without their 0. `has_memory` is whether `smalloc`
-- gives memory; what it gives is written before it is read, and freed. `none` for NULL.
unfoldable pub copy_user_args :
    (has_memory : Bool) (argvec : List (List ℕ)) → (ℕ → ℕ) → Option (ℕ × (ℕ → ℕ))
unfolding push_strings push_frame
copy_user_args has_memory argvec m =
    if has_memory
    then some (push_frame (length argvec) (push_strings argvec stack_start m))
    else none
