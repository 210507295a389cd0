-- ===== src/Sched/RunQueue.antt =====
-- The run queue as links in the memory of the threads, and the run queue as a list of threads.
-- `offset` is where `runq_link` stands in a thread, and `head` the address of `runnable_threads`.
use p.Base.{
  ℕ, ◌+◌, ◌-◌, ◌≡◌, ◌≢◌, refl, ap, ◌∙◌, Option, none, some, List, [], ◌∷◌, ◌++◌, ◌∉◌, arith,
}
use p.ListHead.{Links, init_head, add_to_tail, get_first, del_entry}
use p.ListHead.Chain.{IsList, get_first_last, init_head-IsList}
use p.ListHead.Insert.{add_to_tail-IsList}
use p.ListHead.Delete.{del_entry-IsList}
use p.Sched.Defs.{Sched, runq_add_thread, runq_get_head, take_head}

-- A use of the queue, and what the calls of `runq_get_head` return on the scheduler's state.
pub data Use : Type 0 where
  add : ℕ → Use
  take : Use

abbrev pub queue_answers : List Use → Sched → List (Option ℕ)
queue_answers [] s = []
queue_answers (add thr ∷ us) s = queue_answers us (runq_add_thread thr s)
queue_answers (take ∷ us) s = let r = runq_get_head s in r.0 ∷ queue_answers us r.1

module _ (offset head : ℕ) where
  abbrev pub nodes : List ℕ → List ℕ
  nodes [] = []
  nodes (thr ∷ q) = (thr + offset) ∷ nodes q

  -- `runq_add_thread` and `runq_get_head` of the source; `get_entry` subtracts the offset.
  unfoldable pub link_add : (thr : ℕ) → Links → Links
  unfolding add_to_tail
  link_add thr h = add_to_tail (thr + offset) head h

  unfoldable pub link_entry : Option ℕ → Links → Option ℕ × Links
  unfolding del_entry
  link_entry none h = (none, h)
  link_entry (some node) h = (some (node - offset), del_entry node h)

  unfoldable pub link_take : Links → Option ℕ × Links
  unfolding get_first link_entry
  link_take h = link_entry (get_first head h) h

  -- The same on links.
  unfoldable pub answers : List Use → Links → List (Option ℕ)
  unfolding link_add link_take
  answers [] h = []
  answers (add thr ∷ us) h = answers us (link_add thr h)
  answers (take ∷ us) h = let r = link_take h in r.0 ∷ answers us r.1

  -- Each thread that is added is not in the queue, and its link is not the head.
  abbrev pub Fresh : List Use → List ℕ → Type 0
  Fresh [] q = Unit
  Fresh (add thr ∷ us) q = (thr + offset ≢ head) × (thr ∉ q) × Fresh us (q ++ thr ∷ [])
  Fresh (take ∷ us) [] = Fresh us []
  Fresh (take ∷ us) (thr ∷ q) = Fresh us q

  nodes-snoc : (q : List ℕ) (thr : ℕ) → nodes (q ++ thr ∷ []) ≡ nodes q ++ (thr + offset) ∷ []
  nodes-snoc [] thr = refl
  nodes-snoc (x ∷ q) thr = ap (λ r. (x + offset) ∷ r) (nodes-snoc q thr)

  not-mem-nodes : (thr : ℕ) (q : List ℕ) → thr ∉ q → (thr + offset) ∉ nodes q
  not-mem-nodes thr [] out = refl
  not-mem-nodes thr (x ∷ q) out = ground (arith, out, not-mem-nodes thr q)

  link_add-IsList :
      (thr : ℕ) (q : List ℕ) {h : Links}
      → IsList h head (nodes q)
      → thr + offset ≢ head
      → thr ∉ q
      → IsList (link_add thr h) head (nodes (q ++ thr ∷ []))
  unfolding link_add
  link_add-IsList thr q l apart out = rw (nodes-snoc q thr) (
      add_to_tail-IsList (thr + offset) (nodes q) l
        (ground (arith, not-mem-nodes thr q out, apart)))

  link_take-empty : {h : Links} → IsList h head [] → link_take h ≡ (none, h)
  unfolding link_take link_entry
  link_take-empty {h} l = ap (λ o. link_entry o h) ((get_first_last l).0)

  link_take-first :
      (thr : ℕ) (q : List ℕ) {h : Links}
      → IsList h head (nodes (thr ∷ q))
      → link_take h ≡ (some thr, del_entry (thr + offset) h)
  unfolding link_take link_entry
  link_take-first thr q {h} l =
      let back : thr + offset - offset ≡ thr = omega arith in
      ap (λ o. link_entry o h) ((get_first_last l).0) ∙ rw back refl

  answers_lem :
      (us : List Use) (q : List ℕ) (s : Sched) {h : Links}
      → IsList h head (nodes q)
      → Fresh us q
      → answers us h ≡ queue_answers us (record s { runnable_threads = q })
  unfolding answers runq_add_thread runq_get_head take_head
  answers_lem [] q s l fresh = refl
  answers_lem (add thr ∷ us) q s l fresh =
      answers_lem us (q ++ thr ∷ []) s (link_add-IsList thr q l fresh.0 fresh.1) fresh.2
  answers_lem (take ∷ us) [] s {h} l fresh =
      ap (λ r. r.0 ∷ answers us r.1) (link_take-empty l)
      ∙ ap (λ rest. none ∷ rest) (answers_lem us [] s l fresh)
  answers_lem (take ∷ us) (thr ∷ q) s {h} l fresh =
      ap (λ r. r.0 ∷ answers us r.1) (link_take-first thr q l)
      ∙ ap (λ rest. some thr ∷ rest)
          (answers_lem us q s ((del_entry-IsList (thr + offset) [] (nodes q) l).0) fresh)

  -- From an initialised list head, any sequence of additions to the run queue and of requests for
  -- its first thread, in which no thread is added that is in the queue and no link is the head
  -- itself, is answered by the links in the memory of the threads as by the list of threads that
  -- the scheduler is modelled with.
  pub answers-init_head :
      (us : List Use) (s : Sched) (h : Links)
      → Fresh us []
      → answers us (init_head head h) ≡ queue_answers us (record s { runnable_threads = [] })
  answers-init_head us s h fresh = answers_lem us [] s (init_head-IsList head h) fresh
