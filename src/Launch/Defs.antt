-- ===== src/Launch/Defs.antt =====
-- The calls of exec in their order, each by the definition of its part. The locks are left out; an
-- outcome without a status has run out of fuel.
use p.Base.{ℕ, zero, suc, ◌+◌, ◌*◌, Bool, ◌==◌, if◌then◌else◌, Option, none, some, List, [], ◌∷◌}
use p.Frames.{Outcome, ok, panic}
use p.Vm.{
  Vm, Elf, failure, inval, nomem, Status, success, error, create_page_directory, free_paging_info,
  setup_page_table,
}
use p.Exec.{Copy, copy_user_data, Count, get_num_args, Heap, copy_args, free_args}
use p.Loader.{
  File, Answer, Loaded, SimpleElf, load_program, elf_load_helper, check_program, copy_user_args,
}

-- The kernel with the calling task: the heap of exec's copies, the directory that the task is
-- switched to, the user memory of the program that was loaded last, as the loader has written it by
-- address, and what set_task_stack lays on the kernel stack for the return to the program.
pub record Launch : Type 0 where
  pub vm : Vm
  pub heap : Heap
  pub pdbr : ℕ
  pub image : ℕ → ℕ
  pub entry : ℕ
  pub esp : ℕ

abbrev pub Ending : Type 0
Ending = Outcome (Option Status × Launch)

-- A simple_elf_t as Vm reads it.
abbrev pub segments_of : SimpleElf → Elf
segments_of e = record {
  e_txtstart = e.e_txtstart;
  e_txtlen = e.e_txtlen;
  e_datstart = e.e_datstart;
  e_datlen = e.e_datlen;
  e_rodatstart = e.e_rodatstart;
  e_rodatlen = e.e_rodatlen;
  e_bssstart = e.e_bssstart;
  e_bsslen = e.e_bsslen;
}

abbrev pub execname_max : ℕ
execname_max = 255

-- A string without its 0.
abbrev pub characters : List ℕ → List ℕ
characters [] = []
characters (c ∷ cs) = if c == 0 then [] else c ∷ characters cs

-- The arguments that `copy_args` has copied, from the i-th on.
abbrev pub strings_at : Heap → (argvec num i : ℕ) → List (List ℕ)
strings_at h argvec zero i = []
strings_at h argvec (suc num) i =
    characters (h.string (h.word (argvec + 4 * i))) ∷ strings_at h argvec num (suc i)

-- `count` frames; `fresh` is what the pages of a new directory hold; then the answers of smalloc.
module _ (count fuel : ℕ) (direct_map : ℕ → ℕ) (toc : List File) (fresh : ℕ → ℕ)
    (txt dat rodat : Answer) (has_memory : Bool) where
  -- After copy_user_args: the registers for the return.
  unfoldable pub enter_at : SimpleElf → Option (ℕ × (ℕ → ℕ)) → Launch → Status × Launch
  enter_at e none l = (error failure, l)
  enter_at e (some (sp, m)) l = (success, record l { image = m; entry = e.e_entry; esp = sp })

  -- After load_program.
  unfoldable pub enter : SimpleElf → (args : List (List ℕ)) → Loaded → Launch → Status × Launch
  unfolding copy_user_args enter_at
  enter e args Loaded.failed l = (error failure, l)
  enter e args Loaded.no_memory l = (error nomem, l)
  enter e args (Loaded.loaded m) l = enter_at e (copy_user_args has_memory args m) l

  -- After setup_page_table.
  unfoldable pub with_pages :
      SimpleElf → (args : List (List ℕ)) → Outcome (Option Status × Vm) → Launch → Ending
  unfolding enter load_program
  with_pages e args panic l = panic
  with_pages e args (ok (none, vm)) l = ok (none, record l { vm = vm })
  with_pages e args (ok (some (error x), vm)) l = ok (some (error x), record l { vm = vm })
  with_pages e args (ok (some success, vm)) l =
      let (st, l') = enter e args (load_program txt dat rodat toc e fresh) (record l { vm = vm }) in
      ok (some st, l')

  -- After create_page_directory. The answer of elf_load_helper is not looked at.
  unfoldable pub with_directory :
      (prog_name : List ℕ) (args : List (List ℕ)) → Outcome (Option ℕ × Vm) → Launch → Ending
  unfolding with_pages setup_page_table elf_load_helper
  with_directory prog_name args panic l = panic
  with_directory prog_name args (ok (none, vm)) l = ok (some (error nomem), record l { vm = vm })
  with_directory prog_name args (ok (some pd, vm)) l =
      let e = (elf_load_helper toc prog_name).1 in
      with_pages e args (setup_page_table count fuel (segments_of e) pd (record vm { cr3 = pd }))
        (record l { vm = record vm { cr3 = pd }; pdbr = pd })

  unfoldable pub load_task : (prog_name : List ℕ) (args : List (List ℕ)) → Launch → Ending
  unfolding with_directory create_page_directory
  load_task prog_name args l =
      with_directory prog_name args (create_page_directory direct_map l.vm) l

  -- After the old address space is freed.
  unfoldable pub exec_freed : (argvec_kern num_args : ℕ) → Outcome (Unit {0} × Vm) → Launch → Ending
  unfolding free_args
  exec_freed argvec_kern num_args panic l = panic
  exec_freed argvec_kern num_args (ok (u, vm)) l =
      ok (some success, record l { vm = vm; heap = free_args argvec_kern num_args l.heap })

  -- After load_task.
  unfoldable pub exec_end : (old_pd argvec_kern num_args : ℕ) → Ending → Ending
  unfolding free_paging_info free_args exec_freed
  exec_end old_pd argvec_kern num_args panic = panic
  exec_end old_pd argvec_kern num_args (ok (none, l)) = ok (none, l)
  exec_end old_pd argvec_kern num_args (ok (some (error x), l)) = ok (
    some (error x),
    record l { heap = free_args argvec_kern num_args l.heap; vm = record l.vm { cr3 = old_pd } },
  )
  exec_end old_pd argvec_kern num_args (ok (some success, l)) =
      exec_freed argvec_kern num_args (free_paging_info count old_pd l.vm) l

  -- After copy_args.
  unfoldable pub exec_copied :
      (prog_name : List ℕ) (num_args : ℕ) → Option (Option ℕ × Heap) → Launch → Ending
  unfolding load_task exec_end
  exec_copied prog_name num_args none l = ok (none, l)
  exec_copied prog_name num_args (some (none, h)) l =
      ok (some (error failure), record l { heap = h })
  exec_copied prog_name num_args (some (some argvec_kern, h)) l =
      exec_end l.vm.cr3 argvec_kern num_args
        (load_task prog_name (strings_at h argvec_kern num_args 0) (record l { heap = h }))

  -- After get_num_args.
  unfoldable pub exec_counted : (prog_name : List ℕ) (argvec : ℕ) → Option Count → Launch → Ending
  unfolding exec_copied copy_args
  exec_counted prog_name argvec none l = ok (none, l)
  exec_counted prog_name argvec (some Count.count_inval) l = ok (some (error failure), l)
  exec_counted prog_name argvec (some Count.count_big) l = ok (some (error failure), l)
  exec_counted prog_name argvec (some (Count.counted num_args)) l =
      exec_copied prog_name num_args (copy_args fuel l.vm num_args argvec l.heap) l

  -- After the copy of the name.
  unfoldable pub exec_named : (argvec : ℕ) → Option Copy → Launch → Ending
  unfolding exec_counted check_program get_num_args
  exec_named argvec none l = ok (none, l)
  exec_named argvec (some Copy.err_inval) l = ok (some (error inval), l)
  exec_named argvec (some Copy.err_big) l = ok (some (error inval), l)
  exec_named argvec (some (Copy.copied cs)) l =
      let counted = exec_counted (characters cs) argvec (get_num_args fuel l.vm argvec) l in
      if check_program toc (characters cs) then counted else ok (some (error failure), l)

  unfoldable pub do_exec : (execname argvec : ℕ) → Launch → Ending
  unfolding exec_named copy_user_data
  do_exec execname argvec l = exec_named argvec (copy_user_data fuel l.vm execname execname_max) l
