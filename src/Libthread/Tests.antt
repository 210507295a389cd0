-- ===== src/Libthread/Tests.antt =====
-- Runs of two threads on one readers-writer lock, and a queue that is signalled twice.
use p.Base.{◌+◌, false, none, ◌≡◌, ◌⊎◌, refl, [], ◌∷◌, arith, length}
use p.Libthread.Cond.{Cond, cond_init, cond_wait}
use p.Libthread.Rwlock.{
  write, Rwlock, rwlock_init, rwlock_lock, rwlock_destroy, rwlock_downgrade, write_test,
}
use p.Libthread.Tcb.{Tcbs, find_tcb, thr_join, joined, thr_exit_begin, thr_exit_end}
use p.Libthread.Joins.{thr_exit-thr_join}
use p.Libthread.Runs.{Holders, Step, Reach}
use p.Libthread.Writers.{readers_exclude_writers, second_writer}

abbrev taken : Rwlock
taken = record rwlock_init { num_writers = 1; type = write }

abbrev one_writer : Holders
one_writer = record { lock = taken; reading = []; writing = 7 ∷ [] }

one_writer-Reach : Reach one_writer
unfolding rwlock_init rwlock_lock write_test cond_init
one_writer-Reach = Reach.later Reach.start (Step.lock 7 write (omega arith, omega arith) refl)

readers_exclude_writers_example : (length one_writer.reading ≡ 0) ⊎ (length one_writer.writing ≡ 0)
readers_exclude_writers_example = readers_exclude_writers one_writer-Reach

second_writer_example : (t : Holders) × Step one_writer t × (t.writing ≡ 8 ∷ 7 ∷ [])
unfolding rwlock_init
second_writer_example = second_writer 7 8 one_writer-Reach (omega arith, omega arith) refl

abbrev two_waiting : Cond
two_waiting = cond_wait 2 (cond_wait 1 cond_init)

-- A lock that is destroyed while it is held is not downgraded.
downgraded : rwlock_downgrade (rwlock_destroy taken) ≡ rwlock_destroy taken
unfolding rwlock_downgrade rwlock_destroy
downgraded = refl

abbrev joinable : Tcbs
joinable = record {
  tcb_list = 100 ∷ 200 ∷ [];
  id = λ a. a + 1;
  stack_base = λ a. 0;
  exited = λ a. false;
  status = λ a. 0;
  freed = λ a. false;
  stacks = [];
}

thr_exit-thr_join_example :
    (t : Tcbs) × (thr_join 201 (thr_exit_begin 201 9 joinable) ≡ joined 9 t)
    × (thr_exit_end 200 t ≡ none)
unfolding find_tcb
thr_exit-thr_join_example = thr_exit-thr_join 201 200 9 joinable (omega arith) refl
