-- ===== src/Threads/Table.antt =====
-- The table of threads against its abstract view, a function from ids to threads.
use p.Base.{
  ℕ, ◌+◌, ◌%◌, ◌^◌, ◌<◌, ◌≡◌, refl, sym, ap, ◌∙◌, ◌==◌, leb, if◌then◌else◌, if-false, Bool-cases,
  inl, inr, eq→≡, ne→≢, eq_refl, false, Option, none, some, List, [], ◌∷◌, ◌++◌, ◌∉◌, update,
  update_all, arith,
}
use p.Sched.{Status}
use p.Threads.Defs.{
  ThreadMap, hashmap_size, kernel_threads_init, create_thread, add_thread_to_map, find_id,
  remove_id, get_thread_from_id, looked_up, remove_thread_from_map,
}
use p.Threads.Buckets.{
  first_of, find_id-append, find_id-update, Unique, Unique-update, Unique-snoc, remove_id-other,
  remove_id-same, Unique-remove_id,
}

-- Runs of the table beside the function that it stands for. A new thread is memory that no bucket
-- holds, and fewer than 2^31 - 1 threads are created.
pub data Run : ThreadMap → (ℕ → Option ℕ) → Type 0 where
  start : (id : ℕ → ℕ) (status : ℕ → Status) → Run (kernel_threads_init id status) (λ _. none)
  create :
      (thr : ℕ) {s : ThreadMap} {m : ℕ → Option ℕ}
      → Run s m
      → ((b : ℕ) → thr ∉ s.thread_map b)
      → s.next_tid + 1 < 2 ^ 31
      → Run (create_thread thr s) (update m (s.next_tid + 1) (some thr))
  remove :
      (i : ℕ) {s : ThreadMap} {m : ℕ → Option ℕ}
      → Run s m
      → i < 2 ^ 31
      → Run (remove_thread_from_map i s) (update m i none)

-- What a run keeps: each id is found in its bucket, ids are unique, and no id is above the counter.
abbrev Agrees : (s : ThreadMap) → (ℕ → Option ℕ) → Type 0
Agrees s m =
    ((i : ℕ) → find_id s.id i (s.thread_map (i % hashmap_size)) ≡ m i)
    × ((b : ℕ) → Unique s.id (s.thread_map b))
    × ((b i : ℕ) → s.next_tid < i → find_id s.id i (s.thread_map b) ≡ none)

create_thread_lem :
    (thr : ℕ) (s : ThreadMap)
    → s.next_tid + 1 < 2 ^ 31
    → (create_thread thr s ≡ record s {
      next_tid = s.next_tid + 1;
      id = update s.id thr (s.next_tid + 1);
      status = update s.status thr Status.runnable;
      thread_map =
          update s.thread_map
            ((s.next_tid + 1) % hashmap_size)
            (s.thread_map ((s.next_tid + 1) % hashmap_size) ++ thr ∷ []);
    })
unfolding create_thread add_thread_to_map
create_thread_lem thr s small =
    let tid : (s.next_tid + 1) % 2 ^ 32 ≡ s.next_tid + 1 = omega arith in rw (eq_refl thr, tid) refl

first_of-none : (o : Option ℕ) → first_of o none ≡ o
first_of-none none = refl
first_of-none (some a) = refl

-- A walk of the bucket that gets the thread `thr` at its end, with the id `tid`.
module _ (id : ℕ → ℕ) (thr tid : ℕ) (q : List ℕ) (out : thr ∉ q) where
  found :
      (i : ℕ)
      → find_id (update id thr tid) i (q ++ thr ∷ [])
        ≡ first_of (find_id id i q) (if tid == i then some thr else none)
  unfolding find_id
  found i =
      rw
        (
          find_id-append (update id thr tid) i q (thr ∷ []),
          find_id-update id thr tid i q out,
          eq_refl thr,
        )
        refl

  found_new : find_id id tid q ≡ none → find_id (update id thr tid) tid (q ++ thr ∷ []) ≡ some thr
  found_new none_yet = rw (found tid, none_yet, eq_refl tid) refl

  found_old :
      (i : ℕ) → (tid == i) ≡ false → find_id (update id thr tid) i (q ++ thr ∷ []) ≡ find_id id i q
  found_old i other = rw (found i, other) (first_of-none (find_id id i q))

  Unique-added : find_id id tid q ≡ none → Unique id q → Unique (update id thr tid) (q ++ thr ∷ [])
  Unique-added none_yet u =
      Unique-snoc (update id thr tid) thr q
        (rw (eq_refl thr) (find_id-update id thr tid tid q out ∙ none_yet))
        (Unique-update id thr tid q out u)

module _ (thr : ℕ) (s : ThreadMap) (m : ℕ → Option ℕ) (fresh : (b : ℕ) → thr ∉ s.thread_map b)
    (inv : Agrees s m) where
  create_Agrees :
      s.next_tid + 1 < 2 ^ 31 → Agrees (create_thread thr s) (update m (s.next_tid + 1) (some thr))
  create_Agrees small =
      let tid = s.next_tid + 1 in
      let at = tid % hashmap_size in
      let new : (b : ℕ) → find_id s.id tid (s.thread_map b) ≡ none =
        λ b. inv.2 b tid (omega arith) in
      rw (create_thread_lem thr s small) (
        λ i. elim (Bool-cases (i == tid)) [
          | inl same ↦
              rw (eq→≡ i tid same, eq_refl at, eq_refl tid)
                (found_new s.id thr tid (s.thread_map at) (fresh at) (new at))
          | inr other ↦ elim (Bool-cases (i % hashmap_size == at)) [
            | inl here ↦
                rw (here, other)
                  (found_old s.id thr tid (s.thread_map at) (fresh at) i (ground arith)
                    ∙ rw (sym (eq→≡ (i % hashmap_size) at here)) (inv.0 i))
            | inr away ↦
                rw (away, other)
                  (find_id-update s.id thr tid i (s.thread_map (i % hashmap_size))
                      (fresh (i % hashmap_size))
                    ∙ inv.0 i)
          ]
        ],
        λ b. elim (Bool-cases (b == at)) [
          | inl here ↦
              rw here (Unique-added s.id thr tid (s.thread_map at) (fresh at) (new at) (inv.1 at))
          | inr other ↦ rw other (Unique-update s.id thr tid (s.thread_map b) (fresh b) (inv.1 b))
        ],
        λ b i above. elim (Bool-cases (b == at)) [
          | inl here ↦ rw here (
              found_old s.id thr tid (s.thread_map at) (fresh at) i (ground (arith, above))
              ∙ inv.2 at i (omega (arith, above)))
          | inr other ↦ rw other (
              find_id-update s.id thr tid i (s.thread_map b) (fresh b)
              ∙ inv.2 b i (omega (arith, above)))
        ],
      )

module _ (i : ℕ) (s : ThreadMap) (m : ℕ → Option ℕ) (inv : Agrees s m) where
  removed :
      (j : ℕ) (b : ℕ)
      → find_id s.id j (s.thread_map b) ≡ none
      → find_id s.id j (remove_id s.id i (s.thread_map b)) ≡ none
  removed j b out = elim (Bool-cases (j == i)) [
    | inl same ↦ rw (eq→≡ j i same) (remove_id-same s.id i (s.thread_map b) (inv.1 b))
    | inr other ↦ remove_id-other s.id i j (s.thread_map b) (ne→≢ j i other) ∙ out
  ]

  remove_Agrees : Agrees (remove_thread_from_map i s) (update m i none)
  unfolding remove_thread_from_map
  remove_Agrees =
      let at = i % hashmap_size in
      (
        λ j. elim (Bool-cases (j == i)) [
          | inl same ↦
              rw (eq→≡ j i same, eq_refl at, eq_refl i)
                (remove_id-same s.id i (s.thread_map at) (inv.1 at))
          | inr other ↦ elim (Bool-cases (j % hashmap_size == at)) [
            | inl here ↦
                rw (here, other)
                  (remove_id-other s.id i j (s.thread_map at) (ne→≢ j i other)
                    ∙ rw (sym (eq→≡ (j % hashmap_size) at here)) (inv.0 j))
            | inr away ↦ rw (away, other) (inv.0 j)
          ]
        ],
        update_all (Unique s.id) s.thread_map at (remove_id s.id i (s.thread_map at)) inv.1
            (Unique-remove_id s.id i (s.thread_map at) (inv.1 at)),
        λ b j above.
            update_all (λ q. find_id s.id j q ≡ none) s.thread_map at
              (remove_id s.id i (s.thread_map at)) (λ c. inv.2 c j above)
              (removed j at (inv.2 at j above)) b,
      )

Run-Agrees : {s : ThreadMap} {m : ℕ → Option ℕ} → Run s m → Agrees s m
unfolding kernel_threads_init find_id
Run-Agrees (start id status) = (λ i. refl, λ b. tt, λ b i above. refl)
Run-Agrees (create thr {s} {m} r fresh small) = create_Agrees thr s m fresh (Run-Agrees r) small
Run-Agrees (remove i {s} {m} r small) = remove_Agrees i s m (Run-Agrees r)

-- The hash map from ids to threads implements a function: after any run from the empty table that
-- adds new threads, which the next id below 2^31 names, and removes ids, a lookup of an id below
-- 2^31 returns the thread that was added last under that id, and NULL when there is none or it
-- was removed.
pub get_thread_from_id-Run :
    {s : ThreadMap} {m : ℕ → Option ℕ} (i : ℕ)
    → Run s m
    → i < 2 ^ 31
    → get_thread_from_id i s ≡ looked_up (m i)
unfolding get_thread_from_id
get_thread_from_id-Run {s} {m} i r small =
    if-false (leb (2 ^ 31) i) _ _ (ground arith) ∙ ap looked_up ((Run-Agrees r).0 i)
