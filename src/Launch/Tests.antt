-- ===== src/Launch/Tests.antt =====
-- Ends of exec in a kernel with one page that holds the name of a program.
use p.Base.{ℕ, zero, suc, ◌*◌, List, ◌+◌, ◌≡◌, refl, ◌==◌, if◌then◌else◌, true, none, some, [], ◌∷◌}
use p.Frames.{user_mem_start, ok}
use p.Vm.{Vm, failure, inval, error}
use p.Vm.Entry.{entry_default, present, user_mode}
use p.Exec.{Heap, err_big, free_args, free_each, sfree}
use p.Loader.{File}
use p.Launch.Defs.{Ending, Launch, exec_named, exec_end, do_exec}

-- A page with the name, at 64 the array with a pointer to it and 0; free frames, and tables.
abbrev memory : Vm
memory = record {
  frames = record {
    free_frames_arr = λ i. user_mem_start + (i + 1) * 4096;
    free_list_head = user_mem_start + 8192;
  };
  frame_ref_count = λ i. if i == 1 then 1 else 0;
  word = λ page i.
      if page == 4096
      then if i == 4 then 8192 + 7 else entry_default
      else if i == 0
      then user_mem_start + 4096 + (present + user_mode)
      else entry_default;
  page = λ frame i. if i == 0 then 104 else if i == 1 then 105 else if i == 67 then 1 else 0;
  cr3 = 4096;
  heap = some 12288 ∷ some 16384 ∷ some 20480 ∷ some 24576 ∷ [];
}

abbrev byte_of : List ℕ → ℕ → ℕ
byte_of [] i = 0
byte_of (b ∷ bs) zero = b
byte_of (b ∷ bs) (suc i) = byte_of bs i

-- An ELF header, three section headers, their names, and eight bytes of text.
abbrev program : List ℕ
program =
    127 ∷ 69 ∷ 76 ∷ 70 ∷ 1 ∷ 1 ∷ 1 ∷ 0 ∷ 0 ∷ 0 ∷ 0 ∷ 0 ∷ 0 ∷ 0 ∷ 0 ∷ 0 ∷ 2 ∷ 0 ∷ 3 ∷ 0 ∷ 1 ∷ 0 ∷ 0
    ∷ 0 ∷ 0 ∷ 0 ∷ 0 ∷ 1 ∷ 0 ∷ 0 ∷ 0 ∷ 0 ∷ 52 ∷ 0 ∷ 0 ∷ 0 ∷ 0 ∷ 0 ∷ 0 ∷ 0 ∷ 52 ∷ 0 ∷ 0 ∷ 0 ∷ 0 ∷ 0
    ∷ 40 ∷ 0 ∷ 3 ∷ 0 ∷ 2 ∷ 0 ∷ 0 ∷ 0 ∷ 0 ∷ 0 ∷ 0 ∷ 0 ∷ 0 ∷ 0 ∷ 0 ∷ 0 ∷ 0 ∷ 0 ∷ 0 ∷ 0 ∷ 0 ∷ 0 ∷ 0 ∷ 0
    ∷ 0 ∷ 0 ∷ 0 ∷ 0 ∷ 0 ∷ 0 ∷ 0 ∷ 0 ∷ 0 ∷ 0 ∷ 0 ∷ 0 ∷ 0 ∷ 0 ∷ 1 ∷ 0 ∷ 0 ∷ 0 ∷ 0 ∷ 0 ∷ 0 ∷ 0 ∷ 1 ∷ 0
    ∷ 0 ∷ 0 ∷ 1 ∷ 0 ∷ 0 ∷ 0 ∷ 0 ∷ 0 ∷ 0 ∷ 0 ∷ 0 ∷ 0 ∷ 0 ∷ 1 ∷ 189 ∷ 0 ∷ 0 ∷ 0 ∷ 8 ∷ 0 ∷ 0 ∷ 0 ∷ 0
    ∷ 0 ∷ 0 ∷ 0 ∷ 0 ∷ 0 ∷ 0 ∷ 0 ∷ 1 ∷ 0 ∷ 0 ∷ 0 ∷ 0 ∷ 0 ∷ 0 ∷ 0 ∷ 7 ∷ 0 ∷ 0 ∷ 0 ∷ 3 ∷ 0 ∷ 0 ∷ 0 ∷ 0
    ∷ 0 ∷ 0 ∷ 0 ∷ 0 ∷ 0 ∷ 0 ∷ 0 ∷ 172 ∷ 0 ∷ 0 ∷ 0 ∷ 17 ∷ 0 ∷ 0 ∷ 0 ∷ 0 ∷ 0 ∷ 0 ∷ 0 ∷ 0 ∷ 0 ∷ 0 ∷ 0
    ∷ 1 ∷ 0 ∷ 0 ∷ 0 ∷ 0 ∷ 0 ∷ 0 ∷ 0 ∷ 0 ∷ 46 ∷ 116 ∷ 101 ∷ 120 ∷ 116 ∷ 0 ∷ 46 ∷ 115 ∷ 104 ∷ 115
    ∷ 116 ∷ 114 ∷ 116 ∷ 97 ∷ 98 ∷ 0 ∷ 144 ∷ 144 ∷ 144 ∷ 144 ∷ 144 ∷ 144 ∷ 144 ∷ 195 ∷ []

abbrev hi : File
hi = record { execname = 104 ∷ 105 ∷ []; execbytes = byte_of program; execlen = 197 }

abbrev toc : List File
toc = hi ∷ []

abbrev stale : ℕ → ℕ
stale a = 33

abbrev heap : Heap
heap = record {
  answers = some 512 ∷ some 1024 ∷ some 2048 ∷ [];
  word = λ a. 99;
  string = λ a. [];
  freed = [];
}

abbrev task : Launch
task = record {
  vm = memory;
  heap = heap;
  pdbr = 4096;
  image = λ a. 0;
  entry = 16777216;
  esp = 0xbfffffff;
}

long_name_run :
    exec_named 512 2 (λ a. a) [] (λ a. 0) none none none true 64 (some err_big) task
    ≡ ok (some (error inval), task)
unfolding exec_named
long_name_run = refl

-- A task that was to go over to the directory at 12288: the current one is set back, its own is not.
abbrev half_loaded : Launch
half_loaded = record task { vm = record memory { cr3 = 12288 }; pdbr = 12288 }

not_set_back_run :
    exec_end 512 2
      (λ a. a)
      []
      (λ a. 0)
      none
      none
      none
      true
      4096
      512
      0
      (ok (some (error failure), half_loaded))
    ≡ ok (
      some (error failure),
      record task { heap = record heap { freed = (99, 1) ∷ (512, 4) ∷ [] }; pdbr = 12288 },
    )
unfolding exec_end free_args free_each sfree
not_set_back_run = refl

abbrev ending : Ending
ending =
    do_exec 1024 600 (λ a. a) toc (λ a. 0) (some (4096, stale)) none none true user_mem_start
      (user_mem_start + 64) task
