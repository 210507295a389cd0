-- ===== src/Libthread/Runs.antt =====
-- Runs of threads that lock and unlock one readers-writer lock, without downgrades.
use p.Base.{ℕ, ◌+◌, ◌^◌, ◌<◌, ◌≡◌, true, List, [], ◌∷◌, ◌∈◌, remove}
use p.Libthread.Cond.{is_runnable}
use p.Libthread.Rwlock.{
  Kind, read, write, Rwlock, rwlock_init, acquired, waits, rwlock_lock, rwlock_relock,
  rwlock_unlock,
}

-- The lock, and the threads that hold it for reading and for writing.
pub record Holders : Type 0 where
  pub lock : Rwlock
  pub reading : List ℕ
  pub writing : List ℕ

abbrev pub enter : Kind → ℕ → Rwlock → Holders → Holders
enter Kind.read i l s = record s { lock = l; reading = i ∷ s.reading }
enter Kind.write i l s = record s { lock = l; writing = i ∷ s.writing }
enter Kind.free i l s = record s { lock = l }
enter Kind.invalid i l s = record s { lock = l }

-- Neither counter is about to leave the positive ints.
abbrev pub Small : Rwlock → Type 0
Small l = (l.num_writers + 1 < 2 ^ 31) × (l.curr_readers + 1 < 2 ^ 31)

pub data Step (s : Holders) : Holders → Type 0 where
  lock :
      (i : ℕ) (k : Kind) {l : Rwlock}
      → Small s.lock
      → rwlock_lock i k s.lock ≡ acquired l
      → Step s (enter k i l s)
  wait :
      (i : ℕ) (k : Kind) {l : Rwlock}
      → Small s.lock
      → rwlock_lock i k s.lock ≡ waits l
      → Step s (record s { lock = l })
  relock_read :
      (i : ℕ) {l : Rwlock}
      → Small s.lock
      → is_runnable i s.lock.readers.waiting ≡ true
      → rwlock_relock i read s.lock ≡ acquired l
      → Step s (enter read i l s)
  rewait_read :
      (i : ℕ) {l : Rwlock}
      → is_runnable i s.lock.readers.waiting ≡ true
      → rwlock_relock i read s.lock ≡ waits l
      → Step s (record s { lock = l })
  relock_write :
      (i : ℕ) {l : Rwlock}
      → is_runnable i s.lock.writers.waiting ≡ true
      → rwlock_relock i write s.lock ≡ acquired l
      → Step s (enter write i l s)
  rewait_write :
      (i : ℕ) {l : Rwlock}
      → is_runnable i s.lock.writers.waiting ≡ true
      → rwlock_relock i write s.lock ≡ waits l
      → Step s (record s { lock = l })
  unlock_read :
      (i : ℕ)
      → i ∈ s.reading
      → Step s (record s { lock = rwlock_unlock s.lock; reading = remove i s.reading })
  unlock_write :
      (i : ℕ)
      → i ∈ s.writing
      → Step s (record s { lock = rwlock_unlock s.lock; writing = remove i s.writing })

pub data Reach : Holders → Type 0 where
  start : Reach (record { lock = rwlock_init; reading = []; writing = [] })
  later : {s t : Holders} → Reach s → Step s t → Reach t
