-- ===== src/Launch/Endings.antt =====
-- What exec leaves behind, whether it returns or not.
use p.Base.{ℕ, ◌≡◌, Bool, true, Option, some, List}
use p.Vm.{Vm}
use p.Exec.{Copy, Count, get_num_args, Heap, copy_args}
use p.Loader.{File, Answer, check_program}
use p.Launch.Defs.{Launch, characters, strings_at}
use p.Launch.Loading.{Kept, Replaced}

-- An error of exec: the old address space is the current one again.
abbrev pub Failed : (direct_map : ℕ → ℕ) (l l' : Launch) → Type 0
Failed direct_map l l' = (l'.vm.cr3 ≡ l.vm.cr3) × Kept direct_map l l'

module _ (direct_map : ℕ → ℕ) (toc : List File) (fresh : ℕ → ℕ) (txt dat rodat : Answer)
    (has_memory : Bool) where
  -- The arguments were copied, and the program has the copies.
  pub record Started (prog_name : List ℕ) (num_args : ℕ) (copy : Option (Option ℕ × Heap))
      (l l' : Launch) : Type 0 where
    pub argvec_kern : ℕ
    pub copies : Heap
    pub copied : copy ≡ some (some argvec_kern, copies)
    pub replaced :
        Replaced toc fresh txt dat rodat has_memory direct_map prog_name
          (strings_at copies argvec_kern num_args 0)
          l
          l'

  -- The arguments were counted before.
  pub record Counted (fuel : ℕ) (prog_name : List ℕ) (argvec : ℕ) (count : Option Count)
      (l l' : Launch) : Type 0 where
    pub num_args : ℕ
    pub counts : count ≡ some (Count.counted num_args)
    pub started : Started prog_name num_args (copy_args fuel l.vm num_args argvec l.heap) l l'

  -- The name that was copied is one of a valid program, which is the one that was started.
  pub record Executed (fuel argvec : ℕ) (copy : Option Copy) (l l' : Launch) : Type 0 where
    pub cs : List ℕ
    pub name : copy ≡ some (Copy.copied cs)
    pub present : check_program toc (characters cs) ≡ true
    pub counted : Counted fuel (characters cs) argvec (get_num_args fuel l.vm argvec) l l'

module _ (count fuel : ℕ) (direct_map : ℕ → ℕ) (toc : List File) (fresh : ℕ → ℕ)
    (txt dat rodat : Answer) (has_memory : Bool) where
  abbrev NewProgram : (prog_name : List ℕ) (args : List (List ℕ)) → (l l' : Launch) → Type 0
  NewProgram prog_name args = Replaced toc fresh txt dat rodat has_memory direct_map prog_name args
