-- ===== src/Libthread/Rwlock.antt =====
-- The readers-writer lock of user/libthread/rwlock.c. Its mutex is held from call to return but for
-- the wait, so the stretch from one test of the loop's condition to the next is one step.
use p.Base.{ℕ, ◌+◌, ◌-◌, ◌^◌, ◌%◌, Bool, true, false, ◌&&◌, ◌||◌, not, ◌==◌, ltb, if◌then◌else◌}
use p.Libthread.Cond.{Cond, cond_init, cond_wait, cond_wait_end, cond_signal, cond_broadcast}

-- RWLOCK_READ, RWLOCK_WRITE, RWLOCK_FREE and RWLOCK_INVALID
pub data Kind : Type 0 where
  read write free invalid : Kind

pub record Rwlock : Type 0 where
  pub readers : Cond
  pub writers : Cond
  pub type : Kind
  pub num_writers : ℕ
  pub curr_readers : ℕ

-- `n > 0`, `n++` and `n--` of an int
abbrev pub positive : ℕ → Bool
positive n = not (n == 0) && ltb n (2 ^ 31)

abbrev pub plus_one : ℕ → ℕ
plus_one n = (n + 1) % 2 ^ 32

abbrev pub minus_one : ℕ → ℕ
minus_one n = (n + 2 ^ 32 - 1) % 2 ^ 32

abbrev pub is_free : Kind → Bool
is_free Kind.free = true
is_free Kind.read = false
is_free Kind.write = false
is_free Kind.invalid = false

abbrev pub is_write : Kind → Bool
is_write Kind.write = true
is_write Kind.read = false
is_write Kind.free = false
is_write Kind.invalid = false

unfoldable pub rwlock_init : Rwlock
unfolding cond_init
rwlock_init = record {
  readers = cond_init;
  writers = cond_init;
  type = Kind.free;
  num_writers = 0;
  curr_readers = 0;
}

-- How a stretch ends: with the lock held, in the wait, or in a return that took nothing.
pub data Attempt : Type 0 where
  acquired waits returned : Rwlock → Attempt

unfoldable pub write_test : (thr : ℕ) → Rwlock → Attempt
unfolding cond_wait
write_test thr l =
    if not (is_free l.type) && positive l.curr_readers
    then Attempt.waits (record l { writers = cond_wait thr l.writers })
    else Attempt.acquired (record l { type = Kind.write })

unfoldable pub read_test : (thr : ℕ) → Rwlock → Attempt
unfolding cond_wait
read_test thr l =
    if is_write l.type || positive l.num_writers
    then Attempt.waits (record l { readers = cond_wait thr l.readers })
    else Attempt.acquired (record l { curr_readers = plus_one l.curr_readers; type = Kind.read })

unfoldable pub rwlock_lock : (thr : ℕ) → Kind → Rwlock → Attempt
unfolding write_test read_test
rwlock_lock thr Kind.write l = write_test thr (record l { num_writers = plus_one l.num_writers })
rwlock_lock thr Kind.read l = read_test thr l
rwlock_lock thr Kind.free l = Attempt.returned l
rwlock_lock thr Kind.invalid l = Attempt.returned l

-- What a thread does that was woken from its wait.
unfoldable pub rwlock_relock : (thr : ℕ) → Kind → Rwlock → Attempt
unfolding write_test read_test cond_wait_end
rwlock_relock thr Kind.write l = write_test thr (record l { writers = cond_wait_end thr l.writers })
rwlock_relock thr Kind.read l = read_test thr (record l { readers = cond_wait_end thr l.readers })
rwlock_relock thr Kind.free l = Attempt.returned l
rwlock_relock thr Kind.invalid l = Attempt.returned l

-- The lock is free, and all readers and one writer are woken.
unfoldable pub set_free : Rwlock → Rwlock
unfolding cond_broadcast cond_signal
set_free l = record l {
  type = Kind.free;
  readers = cond_broadcast l.readers;
  writers = cond_signal l.writers;
}

unfoldable pub unlock_as : Kind → Rwlock → Rwlock
unfolding set_free
unlock_as Kind.write l = set_free (record l { num_writers = minus_one l.num_writers })
unlock_as Kind.read l =
    let l' = record l { curr_readers = minus_one l.curr_readers } in
    if l'.curr_readers == 0 then set_free l' else l'
unlock_as Kind.free l = l
unlock_as Kind.invalid l = l

unfoldable pub rwlock_unlock : Rwlock → Rwlock
unfolding unlock_as
rwlock_unlock l = unlock_as l.type l

unfoldable pub rwlock_destroy : Rwlock → Rwlock
rwlock_destroy l = record l { type = Kind.invalid }

unfoldable pub rwlock_downgrade : Rwlock → Rwlock
unfolding cond_broadcast
rwlock_downgrade l =
    if is_write l.type
    then record l {
      num_writers = minus_one l.num_writers;
      curr_readers = plus_one l.curr_readers;
      type = Kind.read;
      readers = cond_broadcast l.readers;
    }
    else l
