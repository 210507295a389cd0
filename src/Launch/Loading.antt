-- ===== src/Launch/Loading.antt =====
-- What load_task leaves behind.
use p.Base.{ℕ, ◌≡◌, ◌⊎◌, inl, inr, refl, Bool, Option, none, some, List}
use p.Frames.{Outcome, ok, panic}
use p.Vm.{Vm, Status, success, error, create_page_directory, setup_page_table}
use p.Loader.{File, Answer, Loaded, SimpleElf, load_program, elf_load_helper, copy_user_args}
use p.Launch.Defs.{Launch, Ending, enter_at, enter, with_pages, segments_of, with_directory}

-- What holds of the state at an error, and what at a success.
abbrev pub Ends : (on_error on_success : Launch → Type 0) → Ending → Type 0
Ends on_error on_success panic = Unit
Ends on_error on_success (ok (none, l)) = Unit
Ends on_error on_success (ok (some (error x), l)) = on_error l
Ends on_error on_success (ok (some success, l)) = on_success l

pub Ends-map :
    {P P' Q Q' : Launch → Type 0} (r : Ending)
    → ((l : Launch) → P l → P' l)
    → ((l : Launch) → Q l → Q' l)
    → Ends P Q r
    → Ends P' Q' r
Ends-map panic f g ends = tt
Ends-map (ok (none, l)) f g ends = tt
Ends-map (ok (some (error x), l)) f g ends = f l ends
Ends-map (ok (some success, l)) f g ends = g l ends

-- The task still returns to its old program.
abbrev OldProgram : (l l' : Launch) → Type 0
OldProgram l l' = (l'.entry ≡ l.entry) × (l'.esp ≡ l.esp) × (l'.pdbr ≡ l.pdbr)

abbrev pub program_of : List File → (prog_name : List ℕ) → SimpleElf
program_of toc prog_name = (elf_load_helper toc prog_name).1

module _ (direct_map : ℕ → ℕ) where
  -- The task returns to its old program, in its old directory or a new one.
  pub record Kept (l l' : Launch) : Type 0 where
    pub entry : l'.entry ≡ l.entry
    pub esp : l'.esp ≡ l.esp
    pub directory :
        (l'.pdbr ≡ l.pdbr)
        ⊎ ((pd : ℕ) × (vm : Vm) × (create_page_directory direct_map l.vm ≡ ok (some pd, vm))
            × (l'.pdbr ≡ pd))

module _ (toc : List File) (fresh : ℕ → ℕ) (txt dat rodat : Answer) (has_memory : Bool) where
  -- The task returns to the entry point of a program, with the memory that load_program gives it
  -- and with its arguments on the stack as copy_user_args lays them.
  pub record Entered (e : SimpleElf) (args : List (List ℕ)) (l' : Launch) : Type 0 where
    pub at_entry : l'.entry ≡ e.e_entry
    pub program : ℕ → ℕ
    pub loads : load_program txt dat rodat toc e fresh ≡ Loaded.loaded program
    pub copies : copy_user_args has_memory args program ≡ some (l'.esp, l'.image)

  abbrev NewProgram : SimpleElf → (args : List (List ℕ)) → (l l' : Launch) → Type 0
  NewProgram e args l l' = (l'.pdbr ≡ l.pdbr) × Entered e args l'

  -- It does so in a new directory.
  pub record Replaced (direct_map : ℕ → ℕ) (prog_name : List ℕ) (args : List (List ℕ))
      (l l' : Launch) : Type 0 where
    pub pd : ℕ
    pub vm : Vm
    pub created : create_page_directory direct_map l.vm ≡ ok (some pd, vm)
    pub in_directory : l'.pdbr ≡ pd
    pub entered : Entered (program_of toc prog_name) args l'

module _ (count fuel : ℕ) (direct_map : ℕ → ℕ) (toc : List File) (fresh : ℕ → ℕ)
    (txt dat rodat : Answer) (has_memory : Bool) where
  abbrev Loads : SimpleElf → (args : List (List ℕ)) → (l : Launch) → Ending → Type 0
  Loads e args l = Ends (OldProgram l) (NewProgram toc fresh txt dat rodat has_memory e args l)

  abbrev Entering : SimpleElf → (args : List (List ℕ)) → (l : Launch) → Status × Launch → Type 0
  Entering e args l (st, l') = Loads e args l (ok (some st, l'))

  enter_at-Ends :
      (e : SimpleElf) (args : List (List ℕ)) (m : ℕ → ℕ) (r : Option (ℕ × (ℕ → ℕ))) (l : Launch)
      → load_program txt dat rodat toc e fresh ≡ Loaded.loaded m
      → copy_user_args has_memory args m ≡ r
      → Entering e args l (enter_at count fuel direct_map toc fresh txt dat rodat has_memory e r l)
  unfolding enter_at
  enter_at-Ends e args m none l loads copies = (refl, refl, refl)
  enter_at-Ends e args m (some (sp, m')) l loads copies =
      (refl, record { at_entry = refl; program = m; loads = loads; copies = copies })

  enter-Ends :
      (e : SimpleElf) (args : List (List ℕ)) (r : Loaded) (l : Launch)
      → load_program txt dat rodat toc e fresh ≡ r
      → Entering e args l
          (enter count fuel direct_map toc fresh txt dat rodat has_memory e args r l)
  unfolding enter
  enter-Ends e args Loaded.failed l loads = (refl, refl, refl)
  enter-Ends e args Loaded.no_memory l loads = (refl, refl, refl)
  enter-Ends e args (Loaded.loaded m) l loads =
      enter_at-Ends e args m (copy_user_args has_memory args m) l loads refl

  with_pages-Ends :
      (e : SimpleElf) (args : List (List ℕ)) (r : Outcome (Option Status × Vm)) (l : Launch)
      → Loads e args l
          (with_pages count fuel direct_map toc fresh txt dat rodat has_memory e args r l)
  unfolding with_pages
  with_pages-Ends e args panic l = tt
  with_pages-Ends e args (ok (none, vm)) l = tt
  with_pages-Ends e args (ok (some (error x), vm)) l = (refl, refl, refl)
  with_pages-Ends e args (ok (some success, vm)) l =
      enter-Ends e args (load_program txt dat rodat toc e fresh) (record l { vm = vm }) refl

  pub load_task-Ends :
      (prog_name : List ℕ) (args : List (List ℕ)) (r : Outcome (Option ℕ × Vm)) (l : Launch)
      → create_page_directory direct_map l.vm ≡ r
      → Ends
          (Kept direct_map l)
          (Replaced toc fresh txt dat rodat has_memory direct_map prog_name args l)
          (with_directory count fuel direct_map toc fresh txt dat rodat has_memory prog_name args r
            l)
  unfolding with_directory
  load_task-Ends prog_name args panic l created = tt
  load_task-Ends prog_name args (ok (none, vm)) l created = record {
    entry = refl;
    esp = refl;
    directory = inl refl;
  }
  load_task-Ends prog_name args (ok (some pd, vm)) l created =
      let e = program_of toc prog_name in
      let l0 = record l { vm = record vm { cr3 = pd }; pdbr = pd } in
      let r = setup_page_table count fuel (segments_of e) pd (record vm { cr3 = pd }) in
      Ends-map (with_pages count fuel direct_map toc fresh txt dat rodat has_memory e args r l0)
        (λ l' old. record { entry = old.0; esp = old.1; directory = inr (pd, vm, created, old.2) })
        (λ l' new. record {
          pd = pd;
          vm = vm;
          created = created;
          in_directory = new.0;
          entered = new.1;
        })
        (with_pages-Ends e args r l0)
