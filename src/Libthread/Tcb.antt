-- ===== src/Libthread/Tcb.antt =====
-- Creation, exit and join of threads, user/libthread/thread.c. A thread control block is named by its
-- address. The mutexes stand within one call or one stretch; who waits on `waiting_threads` is not
-- followed, so `wait` is the answer of a join that has to.
use p.Base.{
  ℕ, ◌^◌, Bool, true, false, ◌==◌, leb, if◌then◌else◌, Option, none, some, List, [], ◌∷◌, ◌++◌,
  update, remove,
}

-- `freed` says of which blocks the memory has been given back; `stacks` are those malloc gave.
pub record Tcbs : Type 0 where
  pub tcb_list : List ℕ
  pub id : ℕ → ℕ
  pub stack_base : ℕ → ℕ
  pub exited : ℕ → Bool
  pub status : ℕ → ℕ
  pub freed : ℕ → Bool
  pub stacks : List ℕ

unfoldable pub find_tcb : (ℕ → ℕ) → (tid : ℕ) → List ℕ → Option ℕ
find_tcb id tid [] = none
find_tcb id tid (t ∷ ts) = if id t == tid then some t else find_tcb id tid ts

-- With the memory that malloc gives, if any; it stands with a stack base of NULL at both calls.
unfoldable pub init_tcb : (tcb : ℕ) → Tcbs → Tcbs
init_tcb tcb s = record s {
  stack_base = update s.stack_base tcb 0;
  exited = update s.exited tcb false;
  freed = update s.freed tcb false;
}

unfoldable pub add_tcb : (tid tcb : ℕ) → Tcbs → Tcbs
add_tcb tid tcb s = record s { id = update s.id tcb tid; tcb_list = s.tcb_list ++ tcb ∷ [] }

unfoldable pub remove_tcb : (tcb : ℕ) → Tcbs → Tcbs
remove_tcb tcb s = record s { tcb_list = remove tcb s.tcb_list; freed = update s.freed tcb true }

pub data Create : Type 0 where
  created : ℕ → Create
  err_nomem err_inval : Create

-- `stack` and `tcb` are what malloc gives, `tid` is what thread_fork returns.
unfoldable pub thr_create : (stack tcb : Option ℕ) → (tid : ℕ) → Tcbs → Create × Tcbs
unfolding init_tcb add_tcb
thr_create none tcb tid s = (Create.err_nomem, s)
thr_create (some stack) none tid s =
    (Create.err_inval, record s { stacks = s.stacks ++ stack ∷ [] })
thr_create (some stack) (some tcb) tid s = (
  Create.created tid,
  add_tcb tid tcb (init_tcb tcb (record s { stacks = s.stacks ++ stack ∷ [] })),
)

-- `wait` is the wait on the condition variable of the block.
pub data Join : Type 0 where
  joined : (status : ℕ) → Tcbs → Join
  no_thread wait : Join

unfoldable pub join_found : Option ℕ → Tcbs → Join
unfolding remove_tcb
join_found none s = Join.no_thread
join_found (some tcb) s =
    if s.exited tcb then Join.joined (s.status tcb) (remove_tcb tcb s) else Join.wait

unfoldable pub thr_join : (tid : ℕ) → Tcbs → Join
unfolding find_tcb join_found
thr_join tid s =
    if leb (2 ^ 31) tid then Join.no_thread else join_found (find_tcb s.id tid s.tcb_list) s

-- `thr_exit` up to where the mutex of the block is released; a thread without a block vanishes.
unfoldable pub exit_found : (status : ℕ) → Option ℕ → Tcbs → Tcbs
exit_found status none s = s
exit_found status (some tcb) s = record s {
  exited = update s.exited tcb true;
  status = update s.status tcb status;
}

unfoldable pub thr_exit_begin : (tid status : ℕ) → Tcbs → Tcbs
unfolding find_tcb exit_found
thr_exit_begin tid status s = exit_found status (find_tcb s.id tid s.tcb_list) s

-- The rest of `thr_exit` reads the block again; `none` when its memory has been given back.
unfoldable pub thr_exit_end : (tcb : ℕ) → Tcbs → Option Tcbs
thr_exit_end tcb s =
    if s.freed tcb
    then none
    else if s.stack_base tcb == 0
    then some s
    else some (record s { stacks = remove (s.stack_base tcb) s.stacks })
