-- ===== src/Exec/Leaks.antt =====
-- What `copy_args` frees when the first argument cannot be copied.
use p.Base.{
  ℕ, suc, ◌+◌, ◌*◌, ◌≡◌, ap, ◌∙◌, Bool, false, if◌then◌else◌, Option, none, some, List, [], ◌∷◌,
  ◌++◌, arith,
}
use p.Vm.{Vm}
use p.Exec.Defs.{
  read_word, Copy, copy_user_data, argname_max, Heap, smalloc, sfree, free_each, free_args,
  is_copied, enter_arg, arg_copied, copy_arg, copy_each, copy_args,
}

free_none :
    (argvec : ℕ) (h : Heap)
    → free_args argvec 0 h
      ≡ record h { freed = (h.freed ++ (h.word argvec, 1) ∷ []) ++ (argvec, 4) ∷ [] }
unfolding free_args free_each sfree
free_none argvec h =
    let slot : argvec + 4 * 0 ≡ argvec = omega arith in
    ap (λ a. sfree argvec 4 (sfree (h.word a) 1 h)) slot

copy_arg-free_args :
    (fuel : ℕ) (t : Vm) (user argvec arg : ℕ) (c : Copy) (h : Heap)
    → copy_user_data fuel t (read_word t user) argname_max ≡ some c
    → is_copied c ≡ none
    → copy_arg fuel t user argvec 0 (some arg, h) ≡ some (false, free_args argvec 0 h)
unfolding copy_arg arg_copied enter_arg
copy_arg-free_args fuel t user argvec arg c h copy bad =
    let first : user + 4 * 0 ≡ user = omega arith in
    ap (λ a. arg_copied argvec 0 arg (copy_user_data fuel t (read_word t a) argname_max) h) first
    ∙ ap (λ k. arg_copied argvec 0 arg k h) copy
    ∙ ap (λ k. some (enter_arg argvec 0 arg k h)) bad

abbrev after_arg :
    (fuel : ℕ) (t : Vm) (user argvec num i : ℕ) → Option (Bool × Heap) → Option (Option ℕ × Heap)
after_arg fuel t user argvec num i none = none
after_arg fuel t user argvec num i (some r) =
    if r.0 then copy_each fuel t user argvec num (i + 1) r.1 else some (none, r.1)

-- When memory for the array and the first of one or more arguments is there and this argument
-- cannot be copied, copy_args returns NULL and frees the array as one of four bytes and whatever
-- word stood in its first entry, but not the buffer.
copy_args-free_args :
    (fuel : ℕ) (t : Vm) (num user argvec arg : ℕ) (c : Copy) (rest : List (Option ℕ)) (h : Heap)
    → copy_user_data fuel t (read_word t user) argname_max ≡ some c
    → is_copied c ≡ none
    → copy_args fuel t (suc num) user (record h { answers = some argvec ∷ some arg ∷ rest })
      ≡ some (
        none,
        record h {
          answers = rest;
          freed = (h.freed ++ (h.word argvec, 1) ∷ []) ++ (argvec, 4) ∷ [];
        },
      )
unfolding copy_args copy_each smalloc
copy_args-free_args fuel t num user argvec arg c rest h copy bad =
    let g = record h { answers = rest } in
    ap (after_arg fuel t user argvec num 0) (copy_arg-free_args fuel t user argvec arg c g copy bad)
    ∙ ap (λ k. some (none, k)) (free_none argvec g)
