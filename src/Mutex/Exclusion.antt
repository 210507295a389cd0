-- ===== src/Mutex/Exclusion.antt =====
-- Mutual exclusion, and no lost wake-up.
use p.Base.{
  subst, sym, ap, ◌∉◌, ◌∙◌, ℕ, List, [], ◌∷◌, ◌++◌, Bool, true, some, ◌≡◌, ◌≢◌, ◌⊎◌, inl, inr, refl,
  arith, update, ◌∈◌, Distinct, Distinct-snoc, has-append,
}
use p.Sched.{Sched, Status, set_status, runq_add_thread}
use p.Mutex.Defs.{
  Value, Mutex, Kernel, Round, mutex_init, mutex_lock, lock_round, mutex_unlock, wake, release,
  restore_interrupts, disable_interrupts_mutex,
}
use p.Mutex.Threads.{
  Pc, System, Step, lock, wait, relock, rewait, unlock, other, Reach, start, later, woken, behind,
  resumed,
}

-- Who stands where, for each value of the mutex.
abbrev Places : Value → List ℕ → (ℕ → Pc) → Type 0
Places Value.invalid q pc = ⊥
Places Value.locked q pc = (h : ℕ) × (pc h ≡ Pc.inside) × ((j : ℕ) → pc j ≡ Pc.inside → j ≡ h)
Places Value.unlocked q pc =
    ((j : ℕ) → pc j ≢ Pc.inside) × ((q ≡ []) ⊎ ((w : ℕ) × (pc w ≡ Pc.testing)))

pub record Inv (s : System) : Type 0 where
  pub places : Places s.mutex.value s.mutex.waiting s.pc
  pub queue : (j : ℕ) → j ∈ s.mutex.waiting → s.pc j ≡ Pc.queued
  pub queue' : (j : ℕ) → s.pc j ≡ Pc.queued → j ∈ s.mutex.waiting
  pub once : Distinct s.mutex.waiting

acquire-Inv :
    (v : Value) (q : List ℕ) (pc : ℕ → Pc) (i : ℕ)
    → Places v q pc
    → v ≢ Value.locked
    → Places Value.locked q (update pc i Pc.inside)
acquire-Inv Value.invalid q pc i p ne = absurd p
acquire-Inv Value.locked q pc i p ne = absurd (ne refl)
acquire-Inv Value.unlocked q pc i p ne = (i, ground arith, λ j e. ground (arith, p.0 j))

wait-Inv :
    (q q' : List ℕ) (pc : ℕ → Pc) (i : ℕ)
    → Places Value.locked q pc
    → pc i ≢ Pc.inside
    → Places Value.locked q' (update pc i Pc.queued)
wait-Inv q q' pc i p ne = (p.0, ground (arith, p.1), λ j e. ground (arith, p.2 j))

abbrev rest_of : List ℕ → List ℕ
rest_of [] = []
rest_of (t ∷ rest) = rest

abbrev first_tests : List ℕ → (ℕ → Pc) → ℕ → Pc
first_tests [] pc = pc
first_tests (t ∷ rest) pc = update pc t Pc.testing

unlock-Inv :
    (v : Value) (q : List ℕ) (pc : ℕ → Pc) (i : ℕ)
    → Places v q pc
    → pc i ≡ Pc.inside
    → ((j : ℕ) → j ∈ q → pc j ≡ Pc.queued)
    → Places Value.unlocked (rest_of q) (update (first_tests q pc) i Pc.outside)
unlock-Inv Value.invalid q pc i p e qs = absurd p
unlock-Inv Value.unlocked q pc i p e qs = absurd (p.0 i e)
unlock-Inv Value.locked [] pc i p e qs = (λ j h. ground (arith, p.2 j, p.2 i), inl refl)
unlock-Inv Value.locked (t ∷ rest) pc i p e qs =
    (λ j h. ground (arith, p.2 j, p.2 i), inr (t, ground (arith, qs t)))

-- What the rounds and the release do to the mutex.
round-acquired :
    (b : Bool) (idle i : ℕ) (m : Mutex) (k : Kernel) {m' : Mutex} {k' : Kernel}
    → lock_round b idle i m k ≡ Round.acquired m' k'
    → (m.value ≢ Value.locked) × (m' ≡ record m { value = Value.locked })
unfolding lock_round
round-acquired b idle i m k e = ground arith

round-blocked :
    (b : Bool) (idle i : ℕ) (m : Mutex) (k : Kernel) {m' : Mutex} {k' : Kernel}
    → lock_round b idle i m k ≡ Round.blocked m' k'
    → (m.value ≡ Value.locked) × (m' ≡ record m { waiting = m.waiting ++ i ∷ [] })
unfolding lock_round
round-blocked b idle i m k e = ground arith

lock-round :
    (idle i : ℕ) (m : Mutex) (k : Kernel) {r : Round}
    → mutex_lock idle i m k ≡ some r
    → lock_round true idle i m k ≡ r
unfolding mutex_lock
lock-round idle i m k e = ground arith

unlock-mutex :
    (m : Mutex) (k : Kernel) {m' : Mutex} {k' : Kernel}
    → mutex_unlock m k ≡ some (m', k')
    → m' ≡ record { value = Value.unlocked; waiting = rest_of m.waiting }
unfolding mutex_unlock
unlock-mutex m k e = ground arith

behind-same : (q : List ℕ) → behind q q ≡ []
behind-same [] = refl
behind-same (t ∷ q) = behind-same q

behind-snoc : (q : List ℕ) (t : ℕ) → behind q (q ++ t ∷ []) ≡ t ∷ []
behind-snoc [] t = refl
behind-snoc (u ∷ q) t = behind-snoc q t

woken-wake : (q : List ℕ) (s : Sched) (pc : ℕ → Pc) → woken s (wake q s).1 pc ≡ first_tests q pc
unfolding wake runq_add_thread set_status
woken-wake [] s pc = (λ k. resumed (behind-same s.runnable_threads k) pc)
woken-wake (t ∷ rest) s pc = (λ k. resumed (behind-snoc s.runnable_threads t k) pc)

unlock-sched :
    (m : Mutex) (k : Kernel) {m' : Mutex} {k' : Kernel}
    → mutex_unlock m k ≡ some (m', k')
    → k'.sched ≡ (wake m.waiting k.sched).1
unfolding mutex_unlock release restore_interrupts disable_interrupts_mutex
unlock-sched m k e = ground arith

-- The threads that mutex_unlock puts into the run queue are the first of the waiting ones.
unlock-woken :
    (m : Mutex) (k : Kernel) (pc : ℕ → Pc) {m' : Mutex} {k' : Kernel}
    → mutex_unlock m k ≡ some (m', k')
    → woken k.sched k'.sched pc ≡ first_tests m.waiting pc
unlock-woken m k pc e =
    ap (λ u. woken k.sched u pc) (unlock-sched m k e) ∙ woken-wake m.waiting k.sched pc

module _ {s : System} (i : ℕ) (k : Kernel) {m : Mutex} (v : Inv s) where
  acquired-Inv :
      s.pc i ≢ Pc.queued
      → (s.mutex.value ≢ Value.locked) × (m ≡ record s.mutex { value = Value.locked })
      → Inv (record { mutex = m; kernel = k; pc = update s.pc i Pc.inside })
  acquired-Inv ne (free, e) =
      subst (λ u. Inv (record { mutex = u; kernel = k; pc = update s.pc i Pc.inside })) (sym e)
        (record {
          places = acquire-Inv s.mutex.value s.mutex.waiting s.pc i v.places free;
          queue = λ j h. ground (arith, v.queue j);
          queue' = λ j h. ground (arith, v.queue' j);
          once = v.once;
        })

  blocked-Inv :
      s.pc i ≢ Pc.queued
      → s.pc i ≢ Pc.inside
      → (s.mutex.value ≡ Value.locked)
        × (m ≡ record s.mutex { waiting = s.mutex.waiting ++ i ∷ [] })
      → Inv (record { mutex = m; kernel = k; pc = update s.pc i Pc.queued })
  blocked-Inv ne ne' (held, e) =
      subst (λ u. Inv (record { mutex = u; kernel = k; pc = update s.pc i Pc.queued })) (sym e)
        (record {
          places = rw held (
              wait-Inv s.mutex.waiting (s.mutex.waiting ++ i ∷ []) s.pc i (rw held at v.places)
                ne');
          queue = λ j h. ground (arith, v.queue j, has-append j s.mutex.waiting (i ∷ []));
          queue' = λ j h. ground (arith, v.queue' j, has-append j s.mutex.waiting (i ∷ []));
          once = Distinct-snoc s.mutex.waiting i v.once (ground (arith, v.queue i));
        })

woken-queue :
    (q : List ℕ) (pc : ℕ → Pc) (i : ℕ)
    → Distinct q
    → pc i ≡ Pc.inside
    → ((j : ℕ) → j ∈ q → pc j ≡ Pc.queued)
    → ((j : ℕ) → pc j ≡ Pc.queued → j ∈ q)
    → (j : ℕ)
    → (j ∈ rest_of q → update (first_tests q pc) i Pc.outside j ≡ Pc.queued)
      × (update (first_tests q pc) i Pc.outside j ≡ Pc.queued → j ∈ rest_of q)
woken-queue [] pc i d e qs qs' j = (λ h. ground (arith, qs j), λ h. ground (arith, qs' j))
woken-queue (t ∷ rest) pc i d e qs qs' j =
    (λ h. ground (arith, d, qs j), λ h. ground (arith, qs' j))

rest_of-Distinct : (q : List ℕ) → Distinct q → Distinct (rest_of q)
rest_of-Distinct [] d = tt
rest_of-Distinct (t ∷ rest) d = d.1

transport2 :
    {A B : Type 0} (P : A → B → Type 0) {a a' : A} {b b' : B} → a ≡ a' → b ≡ b' → P a b → P a' b'
transport2 P {a} {a'} {b} {b'} e f x = subst (λ u. P u b') e (subst (P a) f x)

-- Every step keeps the invariant.
pub Step-Inv : {idle : ℕ} {s t : System} → Step idle s t → Inv s → Inv t
Step-Inv {idle} {s} (lock i {k} e r) v =
    acquired-Inv i k v (ground arith)
      (round-acquired true idle i s.mutex s.kernel (lock-round idle i s.mutex s.kernel r))
Step-Inv {idle} {s} (wait i {k} e r) v =
    blocked-Inv i k v (ground arith) (ground arith)
      (round-blocked true idle i s.mutex s.kernel (lock-round idle i s.mutex s.kernel r))
Step-Inv {idle} {s} (relock i {k} e r) v =
    acquired-Inv i k v (ground arith) (round-acquired true idle i s.mutex s.kernel r)
Step-Inv {idle} {s} (rewait i {k} e r) v =
    blocked-Inv i k v (ground arith) (ground arith) (round-blocked true idle i s.mutex s.kernel r)
Step-Inv {idle} {s} (unlock i {k} e r) v =
    let moved = woken-queue s.mutex.waiting s.pc i v.once e v.queue v.queue' in
    transport2 (λ u pc. Inv (record { mutex = u; kernel = k; pc = update pc i Pc.outside }))
      (sym (unlock-mutex s.mutex s.kernel r)) (sym (unlock-woken s.mutex s.kernel s.pc r))
      (record {
        places = unlock-Inv s.mutex.value s.mutex.waiting s.pc i v.places e v.queue;
        queue = λ j. (moved j).0;
        queue' = λ j. (moved j).1;
        once = rest_of-Distinct s.mutex.waiting v.once;
      })
Step-Inv (other k) v = record {
  places = v.places;
  queue = v.queue;
  queue' = v.queue';
  once = v.once;
}

pub Reach-Inv : {idle : ℕ} {s : System} → Reach idle s → Inv s
unfolding mutex_init
Reach-Inv (start k) = record {
  places = (λ j h. cc, inl refl);
  queue = λ j h. cc;
  queue' = λ j h. cc;
  once = tt;
}
Reach-Inv (later r st) = Step-Inv st (Reach-Inv r)

one_inside :
    (v : Value) (q : List ℕ) (pc : ℕ → Pc) (i j : ℕ)
    → Places v q pc
    → pc i ≡ Pc.inside
    → pc j ≡ Pc.inside
    → i ≡ j
one_inside Value.invalid q pc i j p e e' = absurd p
one_inside Value.unlocked q pc i j p e e' = absurd (p.0 i e)
one_inside Value.locked q pc i j p e e' = p.2 i e ∙ sym (p.2 j e')

-- In every state that interleaved rounds of mutex_lock and calls of mutex_unlock reach, two
-- threads between the two calls are the same thread.
pub mutual_exclusion :
    {idle : ℕ} {s : System} (i j : ℕ)
    → Reach idle s
    → s.pc i ≡ Pc.inside
    → s.pc j ≡ Pc.inside
    → i ≡ j
mutual_exclusion {s} i j r = one_inside s.mutex.value s.mutex.waiting s.pc i j (Reach-Inv r).places

someone_else :
    (v : Value) (q : List ℕ) (pc : ℕ → Pc) (i : ℕ)
    → Places v q pc
    → i ∈ q
    → (j : ℕ) × ((pc j ≡ Pc.inside) ⊎ (pc j ≡ Pc.testing))
someone_else Value.invalid q pc i p e = absurd p
someone_else Value.locked q pc i p e = (p.0, inl p.1)
someone_else Value.unlocked [] pc i p e = absurd (cc)
someone_else Value.unlocked (t ∷ q) pc i (none_in, inl empty) e = absurd (cc)
someone_else Value.unlocked (t ∷ q) pc i (none_in, inr (w, h)) e = (w, inr h)

-- The first of the waiting threads, which mutex_unlock has made runnable: the mutex with the other
-- ones, and the scheduler after the call.
pub record Woken (s : System) (m : Mutex) (k : Kernel) (t : ℕ) : Type 0 where
  pub unlocked : m.value ≡ Value.unlocked
  pub first : s.mutex.waiting ≡ t ∷ m.waiting
  pub was_queued : s.pc t ≡ Pc.queued
  pub out : t ∉ m.waiting
  pub is_runnable : k.sched.status t ≡ Status.runnable
  pub in_run_queue : k.sched.runnable_threads ≡ s.kernel.sched.runnable_threads ++ t ∷ []

unlock-Woken :
    (s : System) (q : List ℕ) (i : ℕ)
    → s.mutex.waiting ≡ q
    → s.mutex.value ≢ Value.invalid
    → i ∈ q
    → Distinct q
    → ((j : ℕ) → j ∈ q → s.pc j ≡ Pc.queued)
    → (m : Mutex) × (k : Kernel) × (t : ℕ) × (mutex_unlock s.mutex s.kernel ≡ some (m, k))
      × Woken s m k t
unfolding mutex_unlock release wake runq_add_thread set_status restore_interrupts
    disable_interrupts_mutex
unlock-Woken s [] i e valid h d qs = absurd (cc)
unlock-Woken s (t ∷ rest) i e valid h d qs =
    let (m, k) = release true s.mutex s.kernel in
    (
      m,
      k,
      t,
      ground arith,
      record {
        unlocked = refl;
        first = ground arith;
        was_queued = ground (arith, qs t);
        out = ground (arith, d);
        is_runnable = ground arith;
        in_run_queue = ground arith;
      },
    )

-- In every reachable state in which a thread waits in the queue of a mutex, another thread is
-- between mutex_lock and mutex_unlock, or was put into the run queue by a mutex_unlock and has
-- not tested the mutex since. In such a state mutex_unlock succeeds, unlocks the mutex, takes the
-- first waiting thread out of the queue, which held it once, and puts it, with status RUNNABLE,
-- behind the others in the run queue.
pub no_lost_wakeup :
    {idle : ℕ} {s : System} (i : ℕ)
    → Reach idle s
    → s.pc i ≡ Pc.queued
    → ((j : ℕ) × ((s.pc j ≡ Pc.inside) ⊎ (s.pc j ≡ Pc.testing)))
      × ((m : Mutex) × (k : Kernel) × (t : ℕ) × (mutex_unlock s.mutex s.kernel ≡ some (m, k))
          × Woken s m k t)
no_lost_wakeup {s} i r e =
    let v = Reach-Inv r in
    (
      someone_else s.mutex.value s.mutex.waiting s.pc i v.places (v.queue' i e),
      unlock-Woken s s.mutex.waiting i refl (is_valid s.mutex.value s.mutex.waiting s.pc v.places)
          (v.queue' i e) v.once v.queue,
    )
  where
    is_valid : (v : Value) (q : List ℕ) (pc : ℕ → Pc) → Places v q pc → v ≢ Value.invalid
    is_valid Value.invalid q pc p = absurd p
    is_valid Value.locked q pc p = λ f. cc
    is_valid Value.unlocked q pc p = λ f. cc
