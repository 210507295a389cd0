-- ===== src/Tasks/Tests.antt =====
-- The init task 1 and its child 2, which ends while the init task waits.
use p.Base.{◌≡◌, ◌≢◌, refl, ◌==◌, if◌then◌else◌, none, some, [], ◌∷◌}
use p.Tasks.Defs.{
  running, absent, freed, Tasks, failure, do_fork, create_task, add_child, with_directory,
  vanish_end, reaped, no_child, do_wait,
}
use p.Tasks.Families.{vanish_end-do_wait, do_fork-failure}

abbrev boot : Tasks
boot = record {
  life = λ t. if t == 1 then running else absent;
  parent = λ t. 1;
  child_task = λ t. [];
  dead_child = λ t. [];
  threads = λ t. if t == 1 then 10 ∷ [] else [];
  exit_status = λ t. 0;
  pdbr = λ t. 4096;
  handler = λ t. record { eip = 0; swexn_args = 0; swexn_esp = 0 };
  waiting = λ t. [];
  runnable = [];
}

abbrev forked : Tasks
forked = (do_fork (some (2, 20)) (some 8192) 1 boot).1

vanish_end-do_wait_example : (t : Tasks) × (do_wait 1 10 (vanish_end 2 forked) ≡ reaped 2 0 t)
unfolding do_fork create_task add_child with_directory
vanish_end-do_wait_example = vanish_end-do_wait 2 10 forked refl

do_fork-failure_example :
    ((do_fork (some (2, 20)) none 1 boot).0 ≡ failure)
    × ((do_fork (some (2, 20)) none 1 boot).1.life 2 ≡ freed)
    × (do_wait 1 10 (do_fork (some (2, 20)) none 1 boot).1 ≢ no_child)
do_fork-failure_example = do_fork-failure 1 2 20 10 boot
