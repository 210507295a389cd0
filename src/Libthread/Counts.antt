-- ===== src/Libthread/Counts.antt =====
-- The counters of a readers-writer lock: each function keeps them in step with the threads that hold
-- the lock and the writers that wait.
use p.Base.{
  ℕ, suc, ◌+◌, ◌^◌, ◌≤◌, ◌<◌, ◌≡◌, ◌≢◌, sym, subst, Bool, true, false, ◌&&◌, ◌||◌, not, ◌==◌,
  Bool-cases, inl, inr, ◌⊎◌, arith, length,
}
use p.Libthread.Cond.{cond_wait}
use p.Libthread.Rwlock.{
  Kind, read, write, free, invalid, Rwlock, acquired, waits, positive, plus_one, minus_one, is_free,
  is_write, write_test, read_test, set_free, unlock_as,
}
use p.Libthread.Signals.{length-cond_signal, status-cond_wait, status-cond_signal, length-cond_wait}

-- What the type of a lock says about the numbers of its readers and writers.
abbrev pub Fits : Kind → (r w : ℕ) → Type 0
Fits Kind.read r w = (0 < r) × (w ≡ 0)
Fits Kind.write r w = r ≡ 0
Fits Kind.free r w = r ≡ 0
Fits Kind.invalid r w = ⊥

-- The invariant, for `r` readers and `w` writers.
pub record Counts (l : Rwlock) (r w : ℕ) : Type 0 where
  pub readers_in : l.curr_readers ≡ r
  pub writers_in : w + length l.writers.waiting ≤ l.num_writers
  pub fits : Fits l.type r w
  pub small : (l.num_writers < 2 ^ 31) × (l.curr_readers < 2 ^ 31)
  pub valid : l.writers.status ≡ true

pub Fits-apart : (k : Kind) (r w : ℕ) → Fits k r w → (r ≡ 0) ⊎ (w ≡ 0)
Fits-apart Kind.read r w f = inr f.1
Fits-apart Kind.write r w f = inl f
Fits-apart Kind.free r w f = inl f
Fits-apart Kind.invalid r w f = absurd f

Fits-free :
    (k : Kind) (r w : ℕ) → Fits k r w → (not (is_free k) && positive r) ≡ false → r < 2 ^ 31 → r ≡ 0
Fits-free Kind.read r w f t small = ground arith
Fits-free Kind.write r w f t small = f
Fits-free Kind.free r w f t small = f
Fits-free Kind.invalid r w f t small = absurd f

write_acquired :
    (i : ℕ) (l : Rwlock) {l' : Rwlock}
    → write_test i l ≡ acquired l'
    → (record l { type = write } ≡ l') × ((not (is_free l.type) && positive l.curr_readers) ≡ false)
unfolding write_test
write_acquired i l {l'} e = elim (Bool-cases (not (is_free l.type) && positive l.curr_readers)) [
  | inl t ↦ ground arith
  | inr t ↦ (ground arith, t)
]

write_waits :
    (i : ℕ) (l : Rwlock) {l' : Rwlock}
    → write_test i l ≡ waits l'
    → record l { writers = cond_wait i l.writers } ≡ l'
unfolding write_test
write_waits i l {l'} e = ground arith

read_acquired :
    (i : ℕ) (l : Rwlock) {l' : Rwlock}
    → read_test i l ≡ acquired l'
    → (record l { curr_readers = plus_one l.curr_readers; type = read } ≡ l')
      × ((is_write l.type || positive l.num_writers) ≡ false)
unfolding read_test
read_acquired i l {l'} e = elim (Bool-cases (is_write l.type || positive l.num_writers)) [
  | inl t ↦ ground arith
  | inr t ↦ (ground arith, t)
]

read_waits :
    (i : ℕ) (l : Rwlock) {l' : Rwlock}
    → read_test i l ≡ waits l'
    → record l { readers = cond_wait i l.readers } ≡ l'
unfolding read_test
read_waits i l {l'} e = ground arith

or-false : (a b : Bool) → (a || b) ≡ false → b ≡ false
or-false true b h = absurd (cc)
or-false false b h = h

no_writers : (n w q : ℕ) → w + q ≤ n → n < 2 ^ 31 → positive n ≡ false → w ≡ 0
no_writers n w q a b c = ground arith

suc≢0 : {n : ℕ} → suc n ≢ 0
suc≢0 e = omega arith

pub write_test-Counts :
    (i : ℕ) (l : Rwlock) {l' : Rwlock} {r w : ℕ}
    → l.curr_readers ≡ r
    → w + suc (length l.writers.waiting) ≤ l.num_writers
    → Fits l.type r w
    → (l.num_writers < 2 ^ 31) × (l.curr_readers < 2 ^ 31)
    → l.writers.status ≡ true
    → write_test i l ≡ acquired l'
    → Counts l' r (suc w)
write_test-Counts i l {l'} {r} {w} a b c d v e =
    let (same, t) = write_acquired i l e in
    subst (λ x. Counts x r (suc w)) same
      (record {
        readers_in = a;
        writers_in = omega arith;
        fits = Fits-free l.type r w c (rw (sym a) t) (omega arith);
        small = d;
        valid = v;
      })

pub write_waits-Counts :
    (i : ℕ) (l : Rwlock) {l' : Rwlock} {r w : ℕ}
    → l.curr_readers ≡ r
    → w + suc (length l.writers.waiting) ≤ l.num_writers
    → Fits l.type r w
    → (l.num_writers < 2 ^ 31) × (l.curr_readers < 2 ^ 31)
    → l.writers.status ≡ true
    → write_test i l ≡ waits l'
    → Counts l' r w
write_waits-Counts i l {l'} {r} {w} a b c d v e =
    subst (λ x. Counts x r w) (write_waits i l e)
      (record {
        readers_in = a;
        writers_in = omega (arith, length-cond_wait i l.writers v);
        fits = c;
        small = d;
        valid = ground (arith, status-cond_wait i l.writers);
      })

pub read_test-Counts :
    (i : ℕ) (l : Rwlock) {l' : Rwlock} {r w : ℕ}
    → Counts l r w
    → l.curr_readers + 1 < 2 ^ 31
    → read_test i l ≡ acquired l'
    → Counts l' (suc r) w
read_test-Counts i l {l'} {r} {w} v fits e =
    let (same, t) = read_acquired i l e in
    let a = v.readers_in in
    let b = v.writers_in in
    let c = v.small in
    subst (λ x. Counts x (suc r) w) same
      (record {
        readers_in = omega arith;
        writers_in = v.writers_in;
        fits = (
          omega arith,
          no_writers l.num_writers w (length l.writers.waiting) b v.small.0
              (or-false (is_write l.type) (positive l.num_writers) t),
        );
        small = (v.small.0, omega arith);
        valid = v.valid;
      })

pub read_waits-Counts :
    (i : ℕ) (l : Rwlock) {l' : Rwlock} {r w : ℕ}
    → Counts l r w
    → read_test i l ≡ waits l'
    → Counts l' r w
read_waits-Counts i l {l'} {r} {w} v e =
    subst (λ x. Counts x r w) (read_waits i l e)
      (record {
        readers_in = v.readers_in;
        writers_in = v.writers_in;
        fits = v.fits;
        small = v.small;
        valid = v.valid;
      })

set_free-Counts :
    (l : Rwlock) {r w : ℕ}
    → r ≡ 0
    → l.curr_readers ≡ r
    → w + length l.writers.waiting ≤ l.num_writers
    → (l.num_writers < 2 ^ 31) × (l.curr_readers < 2 ^ 31)
    → l.writers.status ≡ true
    → Counts (set_free l) r w
unfolding set_free
set_free-Counts l z a b c v = record {
  readers_in = a;
  writers_in = omega (arith, length-cond_signal l.writers);
  fits = z;
  small = c;
  valid = ground (arith, status-cond_signal l.writers);
}

Fits-as : (l : Rwlock) (k : Kind) {r w : ℕ} → l.type ≡ k → Counts l r w → Fits k r w
Fits-as l k {r} {w} e v = subst (λ k'. Fits k' r w) e v.fits

pub unlock_read-Counts :
    (k : Kind) (l : Rwlock) {r w : ℕ} → l.type ≡ k → Counts l (suc r) w → Counts (unlock_as k l) r w
unfolding unlock_as
unlock_read-Counts Kind.write l e v = absurd (suc≢0 (Fits-as l write e v))
unlock_read-Counts Kind.free l e v = absurd (suc≢0 (Fits-as l free e v))
unlock_read-Counts Kind.invalid l e v = absurd (Fits-as l invalid e v)
unlock_read-Counts Kind.read l {r} {w} e v =
    let f = Fits-as l read e v in
    let a = v.readers_in in
    let c = v.small in
    let one_less : minus_one l.curr_readers ≡ r = omega arith in
    let l' = record l { curr_readers = minus_one l.curr_readers } in
    elim (Bool-cases (l'.curr_readers == 0)) [
      | inl z ↦
          rw z (
            set_free-Counts l' (ground arith) one_less v.writers_in (v.small.0, omega arith)
              v.valid)
      | inr z ↦ rw z (record {
        readers_in = one_less;
        writers_in = v.writers_in;
        fits = subst (λ k. Fits k r w) (sym e) (ground arith, f.1);
        small = (v.small.0, omega arith);
        valid = v.valid;
      })
    ]

pub unlock_write-Counts :
    (k : Kind) (l : Rwlock) {r w : ℕ} → l.type ≡ k → Counts l r (suc w) → Counts (unlock_as k l) r w
unfolding unlock_as
unlock_write-Counts Kind.read l e v = absurd (suc≢0 ((Fits-as l read e v).1))
unlock_write-Counts Kind.invalid l e v = absurd (Fits-as l invalid e v)
unlock_write-Counts Kind.free l {r} {w} e v =
    let b = v.writers_in in
    record {
      readers_in = v.readers_in;
      writers_in = omega arith;
      fits = subst (λ k. Fits k r w) (sym e) (Fits-as l free e v);
      small = v.small;
      valid = v.valid;
    }
unlock_write-Counts Kind.write l {r} {w} e v =
    let b = v.writers_in in
    let c = v.small in
    set_free-Counts (record l { num_writers = minus_one l.num_writers }) (Fits-as l write e v)
      v.readers_in (omega arith) (omega arith, v.small.1) v.valid
