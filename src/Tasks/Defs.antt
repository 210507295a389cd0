-- ===== src/Tasks/Defs.antt =====
-- The task structures and the functions that make, end and collect tasks. Tasks and threads are named
-- by their addresses, and an address stands for the id of its task or thread too. The lists of a task
-- are the sequences that its list heads stand for. Each function is one call, or the part of one that
-- its comment names. Interrupts are off in `vanish_end`; they are on in do_fork and do_wait, whose
-- definitions are calls that no other one interrupts.
use p.Base.{
  ℕ, Bool, true, false, if◌then◌else◌, Option, none, some, List, [], ◌∷◌, ◌++◌, update, remove,
}

-- `running` from `create_task` on, `dead` in the list of a parent, and `freed`.
pub data Life : Type 0 where
  absent running dead freed : Life

-- `eip`, `swexn_args` and `swexn_esp` of a task
pub record Handler : Type 0 where
  pub eip : ℕ
  pub swexn_args : ℕ
  pub swexn_esp : ℕ

-- `waiting` is the queue of `exit_cond_var`, `runnable` the run queue.
pub record Tasks : Type 0 where
  pub life : ℕ → Life
  pub parent : ℕ → ℕ
  pub child_task : ℕ → List ℕ
  pub dead_child : ℕ → List ℕ
  pub threads : ℕ → List ℕ
  pub exit_status : ℕ → ℕ
  pub pdbr : ℕ → ℕ
  pub handler : ℕ → Handler
  pub waiting : ℕ → List ℕ
  pub runnable : List ℕ

-- The answers of the system calls: an id, or ERR_NOMEM and ERR_FAILURE.
pub data Answer : Type 0 where
  got : ℕ → Answer
  nomem failure : Answer

-- `child` and its first thread `thr` are what `smalloc` hands out.
unfoldable pub create_task : (parent child thr : ℕ) → Tasks → Tasks
create_task parent child thr s = record s {
  life = update s.life child Life.running;
  parent = update s.parent child parent;
  child_task = update s.child_task child [];
  dead_child = update s.dead_child child [];
  threads = update s.threads child (thr ∷ []);
  handler = update s.handler child (record { eip = 0; swexn_args = 0; swexn_esp = 0 });
  waiting = update s.waiting child [];
}

unfoldable pub add_child : (curr child : ℕ) → Tasks → Tasks
add_child curr child s = record s {
  child_task = update s.child_task curr (s.child_task curr ++ child ∷ []);
}

-- What `do_fork` does with the new page directory. When there is none, the task is freed, and stays
-- in the list of its parent.
unfoldable pub with_directory : (curr child thr : ℕ) → Option ℕ → Tasks → Answer × Tasks
with_directory curr child thr none s =
    (Answer.failure, record s { life = update s.life child Life.freed })
with_directory curr child thr (some pd) s = (
  Answer.got child,
  record s {
    pdbr = update s.pdbr child pd;
    handler = update s.handler child (s.handler curr);
    runnable = s.runnable ++ thr ∷ [];
  },
)

-- `fresh` is the memory for the task and its thread, `cloned` the result of `clone_paging_info`. The
-- copy of the kernel stack is not followed.
unfoldable pub do_fork :
    (fresh : Option (ℕ × ℕ)) (cloned : Option ℕ) (curr : ℕ) → Tasks → Answer × Tasks
unfolding create_task add_child with_directory
do_fork none cloned curr s = (Answer.nomem, s)
do_fork (some (child, thr)) cloned curr s =
    with_directory curr child thr cloned (add_child curr child (create_task curr child thr s))

abbrev pub is_empty : List ℕ → Bool
is_empty [] = true
is_empty (x ∷ xs) = false

-- `cond_signal` and `cond_broadcast` on `exit_cond_var` of a task
unfoldable pub signal_exit : (p : ℕ) → List ℕ → Tasks → Tasks
signal_exit p [] s = s
signal_exit p (thr ∷ rest) s = record s {
  waiting = update s.waiting p rest;
  runnable = s.runnable ++ thr ∷ [];
}

unfoldable pub broadcast_exit : (p : ℕ) → Tasks → Tasks
broadcast_exit p s = record s {
  waiting = update s.waiting p [];
  runnable = s.runnable ++ s.waiting p;
}

unfoldable pub wake_parent : (p : ℕ) → Tasks → Tasks
unfolding signal_exit broadcast_exit
wake_parent p s =
    if is_empty (s.child_task p) then broadcast_exit p s else signal_exit p (s.waiting p) s

-- The last thread's `do_vanish` from where interrupts are off for good, with its children already
-- handed over to the init task.
unfoldable pub vanish_end : (curr : ℕ) → Tasks → Tasks
unfolding wake_parent
vanish_end curr s =
    let p = s.parent curr in
    wake_parent p (record s {
      life = update s.life curr Life.dead;
      child_task = update s.child_task p (remove curr (s.child_task p));
      dead_child = update s.dead_child p (s.dead_child p ++ curr ∷ []);
    })

-- A round of `do_wait`: a dead child's id and status, the wait on `exit_cond_var`, or ERR_FAILURE.
pub data Wait : Type 0 where
  reaped : (id status : ℕ) → Tasks → Wait
  blocked : Tasks → Wait
  no_child : Wait

unfoldable pub collect : (curr thr : ℕ) → (dead alive : List ℕ) → Tasks → Wait
collect curr thr (d ∷ rest) alive s =
    Wait.reaped d (s.exit_status d)
      (record s { life = update s.life d Life.freed; dead_child = update s.dead_child curr rest })
collect curr thr [] (a ∷ alive) s =
    Wait.blocked (record s { waiting = update s.waiting curr (s.waiting curr ++ thr ∷ []) })
collect curr thr [] [] s = Wait.no_child

unfoldable pub do_wait : (curr thr : ℕ) → Tasks → Wait
unfolding collect
do_wait curr thr s = collect curr thr (s.dead_child curr) (s.child_task curr) s
