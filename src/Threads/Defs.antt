-- ===== src/Threads/Defs.antt =====
-- The hash map from thread ids to threads, kern/core/thread.c. A thread is named by its address. Ids are bit patterns of
-- ints, negative from 2^31 on; the lists of the buckets are what their heads stand for.
use p.Base.{
  ℕ, ◌+◌, ◌-◌, ◌%◌, ◌^◌, ◌*◌, ◌==◌, leb, if◌then◌else◌, Option, none, some, List, [], ◌∷◌, ◌++◌,
  update,
}
use p.Sched.{Status}

abbrev pub hashmap_size : ℕ
hashmap_size = 4096 * 2

-- `thread_map`, and the `id` and `status` of each thread
pub record ThreadMap : Type 0 where
  pub next_tid : ℕ
  pub thread_map : ℕ → List ℕ
  pub id : ℕ → ℕ
  pub status : ℕ → Status

-- `status` and `id` of memory that is not a thread yet are of any value.
unfoldable pub kernel_threads_init : (id : ℕ → ℕ) → (ℕ → Status) → ThreadMap
kernel_threads_init id status = record {
  next_tid = 0;
  thread_map = λ _. [];
  id = id;
  status = status;
}

unfoldable pub add_thread_to_map : (thr : ℕ) → ThreadMap → ThreadMap
add_thread_to_map thr s =
    let index = s.id thr % hashmap_size in
    record s { thread_map = update s.thread_map index (s.thread_map index ++ thr ∷ []) }

-- `smalloc` gives `thr`. The list of the task and the stack pointers are not part of the table.
unfoldable pub create_thread : (thr : ℕ) → ThreadMap → ThreadMap
unfolding add_thread_to_map
create_thread thr s =
    let tid = (s.next_tid + 1) % 2 ^ 32 in
    add_thread_to_map thr (record s {
      next_tid = tid;
      id = update s.id thr tid;
      status = update s.status thr Status.runnable;
    })

-- The walks along a bucket, which stop at the first thread with the id.
unfoldable pub find_id : (ℕ → ℕ) → (thr_id : ℕ) → List ℕ → Option ℕ
find_id id thr_id [] = none
find_id id thr_id (thr ∷ q) = if id thr == thr_id then some thr else find_id id thr_id q

unfoldable pub remove_id : (ℕ → ℕ) → (thr_id : ℕ) → List ℕ → List ℕ
remove_id id thr_id [] = []
remove_id id thr_id (thr ∷ q) = if id thr == thr_id then q else thr ∷ remove_id id thr_id q

-- `outside` is a read before the start of `thread_map`: the remainder of a negative id is negative.
pub data Lookup : Type 0 where
  thread : ℕ → Lookup
  null outside : Lookup

abbrev pub looked_up : Option ℕ → Lookup
looked_up none = Lookup.null
looked_up (some thr) = Lookup.thread thr

unfoldable pub get_thread_from_id : (thr_id : ℕ) → ThreadMap → Lookup
unfolding find_id
get_thread_from_id thr_id s =
    if leb (2 ^ 31) thr_id
    then if (2 ^ 32 - thr_id) % hashmap_size == 0
      then looked_up (find_id s.id thr_id (s.thread_map 0))
      else Lookup.outside
    else looked_up (find_id s.id thr_id (s.thread_map (thr_id % hashmap_size)))

-- The kernel calls it with ids of threads, which are positive.
unfoldable pub remove_thread_from_map : (thr_id : ℕ) → ThreadMap → ThreadMap
unfolding remove_id
remove_thread_from_map thr_id s =
    let index = thr_id % hashmap_size in
    record s { thread_map = update s.thread_map index (remove_id s.id thr_id (s.thread_map index)) }
