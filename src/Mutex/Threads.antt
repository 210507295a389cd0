-- ===== src/Mutex/Threads.antt =====
-- Threads that lock and unlock one mutex, interleaved in any order.
use p.Base.{ℕ, List, [], ◌∷◌, true, some, ◌≡◌, update}
use p.Sched.{Sched}
use p.Mutex.Defs.{Mutex, Kernel, Round, mutex_init, mutex_lock, lock_round, mutex_unlock}

-- Where a thread stands: outside, at the test of the loop after it was woken, in the queue of the
-- mutex, or between `mutex_lock` and `mutex_unlock`.
pub data Pc : Type 0 where
  outside : Pc
  testing : Pc
  queued : Pc
  inside : Pc

pub record System : Type 0 where
  pub mutex : Mutex
  pub kernel : Kernel
  pub pc : ℕ → Pc

-- What stands in the second queue behind the threads of the first.
abbrev pub behind : List ℕ → List ℕ → List ℕ
behind [] q = q
behind (t ∷ p) [] = []
behind (t ∷ p) (u ∷ q) = behind p q

-- The threads that a call has put behind the others in the run queue go back to the test.
abbrev pub resumed : List ℕ → (ℕ → Pc) → ℕ → Pc
resumed [] pc = pc
resumed (t ∷ ts) pc = update (resumed ts pc) t Pc.testing

abbrev pub woken : (before after : Sched) → (ℕ → Pc) → ℕ → Pc
woken before after pc = resumed (behind before.runnable_threads after.runnable_threads) pc

-- Interrupts are off from the test to the end of a round, so each is one step. In between anything
-- may happen to the kernel: other threads run, the clock ticks, other mutexes are used.
pub data Step (idle : ℕ) (s : System) : System → Type 0 where
  lock :
      (i : ℕ) {m : Mutex} {k : Kernel}
      → s.pc i ≡ Pc.outside
      → mutex_lock idle i s.mutex s.kernel ≡ some (Round.acquired m k)
      → Step idle s (record { mutex = m; kernel = k; pc = update s.pc i Pc.inside })
  wait :
      (i : ℕ) {m : Mutex} {k : Kernel}
      → s.pc i ≡ Pc.outside
      → mutex_lock idle i s.mutex s.kernel ≡ some (Round.blocked m k)
      → Step idle s (record { mutex = m; kernel = k; pc = update s.pc i Pc.queued })
  relock :
      (i : ℕ) {m : Mutex} {k : Kernel}
      → s.pc i ≡ Pc.testing
      → lock_round true idle i s.mutex s.kernel ≡ Round.acquired m k
      → Step idle s (record { mutex = m; kernel = k; pc = update s.pc i Pc.inside })
  rewait :
      (i : ℕ) {m : Mutex} {k : Kernel}
      → s.pc i ≡ Pc.testing
      → lock_round true idle i s.mutex s.kernel ≡ Round.blocked m k
      → Step idle s (record { mutex = m; kernel = k; pc = update s.pc i Pc.queued })
  unlock :
      (i : ℕ) {m : Mutex} {k : Kernel}
      → s.pc i ≡ Pc.inside
      → mutex_unlock s.mutex s.kernel ≡ some (m, k)
      → Step idle s (record {
        mutex = m;
        kernel = k;
        pc = update (woken s.kernel.sched k.sched s.pc) i Pc.outside;
      })
  other : (k : Kernel) → Step idle s (record s { kernel = k })

pub data Reach (idle : ℕ) : System → Type 0 where
  start :
      (k : Kernel) → Reach idle (record { mutex = mutex_init; kernel = k; pc = λ _. Pc.outside })
  later : {s t : System} → Reach idle s → Step idle s t → Reach idle t
