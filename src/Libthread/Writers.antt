-- ===== src/Libthread/Writers.antt =====
-- Readers and writers: in every run, readers keep writers out and writers keep readers out; writers do
-- not keep other writers out.
use p.Base.{
  ℕ, ◌<◌, ◌≡◌, refl, sym, ◌∙◌, subst, true, ◌⊎◌, arith, List, [], ◌∷◌, ◌∈◌, remove, length,
  length-remove,
}
use p.Libthread.Cond.{cond_init, cond_wait_end, is_runnable}
use p.Libthread.Rwlock.{
  Kind, read, write, Rwlock, rwlock_init, acquired, waits, plus_one, write_test, rwlock_lock,
  rwlock_relock, rwlock_unlock,
}
use p.Libthread.Runs.{Holders, enter, Small, Step, Reach}
use p.Libthread.Signals.{length-del_waiting}
use p.Libthread.Counts.{
  Counts, Fits, Fits-apart, write_test-Counts, write_waits-Counts, read_test-Counts,
  read_waits-Counts, unlock_read-Counts, unlock_write-Counts,
}

-- The invariant of a run.
abbrev Inv : Holders → Type 0
Inv s = Counts s.lock (length s.reading) (length s.writing)

lock-Inv :
    (s : Holders) (i : ℕ) (k : Kind) {l : Rwlock}
    → Inv s
    → Small s.lock
    → rwlock_lock i k s.lock ≡ acquired l
    → Inv (enter k i l s)
unfolding rwlock_lock
lock-Inv s i Kind.read v fits e = read_test-Counts i s.lock v fits.1 e
lock-Inv s i Kind.write v fits e =
    let b = v.writers_in in
    write_test-Counts i (record s.lock { num_writers = plus_one s.lock.num_writers }) v.readers_in
      (omega arith) v.fits (omega arith, v.small.1) v.valid e
lock-Inv s i Kind.free v fits e = absurd (cc)
lock-Inv s i Kind.invalid v fits e = absurd (cc)

wait-Inv :
    (s : Holders) (i : ℕ) (k : Kind) {l : Rwlock}
    → Inv s
    → Small s.lock
    → rwlock_lock i k s.lock ≡ waits l
    → Inv (record s { lock = l })
unfolding rwlock_lock
wait-Inv s i Kind.read v fits e = read_waits-Counts i s.lock v e
wait-Inv s i Kind.write v fits e =
    let b = v.writers_in in
    write_waits-Counts i (record s.lock { num_writers = plus_one s.lock.num_writers }) v.readers_in
      (omega arith) v.fits (omega arith, v.small.1) v.valid e
wait-Inv s i Kind.free v fits e = absurd (cc)
wait-Inv s i Kind.invalid v fits e = absurd (cc)

relock_write-Inv :
    (s : Holders) (i : ℕ) {l : Rwlock}
    → Inv s
    → is_runnable i s.lock.writers.waiting ≡ true
    → rwlock_relock i write s.lock ≡ acquired l
    → Inv (enter write i l s)
unfolding rwlock_relock cond_wait_end
relock_write-Inv s i v r e =
    let b = v.writers_in in
    write_test-Counts i (record s.lock { writers = cond_wait_end i s.lock.writers }) v.readers_in
      (omega (arith, length-del_waiting i s.lock.writers.waiting r)) v.fits v.small v.valid e

rewait_write-Inv :
    (s : Holders) (i : ℕ) {l : Rwlock}
    → Inv s
    → is_runnable i s.lock.writers.waiting ≡ true
    → rwlock_relock i write s.lock ≡ waits l
    → Inv (record s { lock = l })
unfolding rwlock_relock cond_wait_end
rewait_write-Inv s i v r e =
    let b = v.writers_in in
    write_waits-Counts i (record s.lock { writers = cond_wait_end i s.lock.writers }) v.readers_in
      (omega (arith, length-del_waiting i s.lock.writers.waiting r)) v.fits v.small v.valid e

-- A woken reader has only its own entry in the readers' queue taken out.
woken_reader :
    {l : Rwlock} {r w : ℕ} (i : ℕ)
    → Counts l r w
    → Counts (record l { readers = cond_wait_end i l.readers }) r w
woken_reader i v = record {
  readers_in = v.readers_in;
  writers_in = v.writers_in;
  fits = v.fits;
  small = v.small;
  valid = v.valid;
}

relock_read-Inv :
    (s : Holders) (i : ℕ) {l : Rwlock}
    → Inv s
    → Small s.lock
    → rwlock_relock i read s.lock ≡ acquired l
    → Inv (enter read i l s)
unfolding rwlock_relock
relock_read-Inv s i v fits e =
    read_test-Counts i (record s.lock { readers = cond_wait_end i s.lock.readers })
      (woken_reader i v) fits.1 e

rewait_read-Inv :
    (s : Holders) (i : ℕ) {l : Rwlock}
    → Inv s
    → rwlock_relock i read s.lock ≡ waits l
    → Inv (record s { lock = l })
unfolding rwlock_relock
rewait_read-Inv s i v e =
    read_waits-Counts i (record s.lock { readers = cond_wait_end i s.lock.readers })
      (woken_reader i v) e

unlock_read-Inv :
    (s : Holders) (i : ℕ)
    → Inv s
    → i ∈ s.reading
    → Inv (record s { lock = rwlock_unlock s.lock; reading = remove i s.reading })
unfolding rwlock_unlock
unlock_read-Inv s i v m =
    unlock_read-Counts s.lock.type s.lock refl
      (subst (λ n. Counts s.lock n (length s.writing)) (sym (length-remove i s.reading m)) v)

unlock_write-Inv :
    (s : Holders) (i : ℕ)
    → Inv s
    → i ∈ s.writing
    → Inv (record s { lock = rwlock_unlock s.lock; writing = remove i s.writing })
unfolding rwlock_unlock
unlock_write-Inv s i v m =
    unlock_write-Counts s.lock.type s.lock refl
      (subst (λ n. Counts s.lock (length s.reading) n) (sym (length-remove i s.writing m)) v)

Step-Inv : {s t : Holders} → Step s t → Inv s → Inv t
Step-Inv {s} (Step.lock i k fits e) v = lock-Inv s i k v fits e
Step-Inv {s} (Step.wait i k fits e) v = wait-Inv s i k v fits e
Step-Inv {s} (Step.relock_read i fits r e) v = relock_read-Inv s i v fits e
Step-Inv {s} (Step.rewait_read i r e) v = rewait_read-Inv s i v e
Step-Inv {s} (Step.relock_write i r e) v = relock_write-Inv s i v r e
Step-Inv {s} (Step.rewait_write i r e) v = rewait_write-Inv s i v r e
Step-Inv {s} (Step.unlock_read i m) v = unlock_read-Inv s i v m
Step-Inv {s} (Step.unlock_write i m) v = unlock_write-Inv s i v m

Reach-Inv : {s : Holders} → Reach s → Inv s
unfolding rwlock_init cond_init
Reach-Inv Reach.start = record {
  readers_in = refl;
  writers_in = omega arith;
  fits = refl;
  small = (omega arith, omega arith);
  valid = refl;
}
Reach-Inv (Reach.later r st) = Step-Inv st (Reach-Inv r)

-- In every state that threads reach which lock, wait for and unlock a readers-writer lock,
-- without downgrades and with its counters within the positive ints, no thread holds it for
-- reading or none holds it for writing.
pub readers_exclude_writers :
    {s : Holders} → Reach s → (length s.reading ≡ 0) ⊎ (length s.writing ≡ 0)
readers_exclude_writers {s} r =
    let v = Reach-Inv r in Fits-apart s.lock.type (length s.reading) (length s.writing) v.fits

write_test-acquired :
    (i : ℕ) (l : Rwlock)
    → l.curr_readers ≡ 0
    → write_test i l ≡ acquired (record l { type = write })
unfolding write_test
write_test-acquired i l none_reads = ground arith

no_readers : (k : Kind) (r w : ℕ) → Fits k r w → 0 < w → r ≡ 0
no_readers Kind.read r w f h = absurd (omega (arith, f))
no_readers Kind.write r w f h = f
no_readers Kind.free r w f h = f
no_readers Kind.invalid r w f h = absurd f

has_writer : (i : ℕ) (xs : List ℕ) → i ∈ xs → 0 < length xs
has_writer i [] m = absurd (cc)
has_writer i (x ∷ xs) m = omega arith

-- In every reachable state of a readers-writer lock, with its counters within the positive ints,
-- in which a thread holds it for writing, any thread that asks for writing gets it at once.
pub second_writer :
    {s : Holders} (i j : ℕ)
    → Reach s
    → Small s.lock
    → i ∈ s.writing
    → (t : Holders) × Step s t × (t.writing ≡ j ∷ s.writing)
unfolding rwlock_lock
second_writer {s} i j r fits m =
    let v = Reach-Inv r in
    let none_reads =
      v.readers_in
      ∙ no_readers s.lock.type (length s.reading) (length s.writing) v.fits
          (has_writer i s.writing m) in
    let l = record s.lock { num_writers = plus_one s.lock.num_writers } in
    (
      enter write j (record l { type = write }) s,
      Step.lock j write fits (write_test-acquired j l none_reads),
      refl,
    )
