-- ===== src/Libthread/Joins.antt =====
-- What a join returns, and when.
use p.Base.{
  ℕ, ◌^◌, ◌<◌, ◌≡◌, refl, ap, ◌∙◌, true, false, leb, eq_refl, Option, none, some, update, arith,
}
use p.Libthread.Tcb.{
  Tcbs, find_tcb, init_tcb, add_tcb, remove_tcb, thr_create, joined, join_found, thr_join,
  exit_found, thr_exit_begin, thr_exit_end,
}

module _ (tid tcb status : ℕ) (s : Tcbs) (small : tid < 2 ^ 31)
    (known : find_tcb s.id tid s.tcb_list ≡ some tcb) where
  positive : leb (2 ^ 31) tid ≡ false
  positive = ground (arith, small)

  -- The state after the first stretch of thr_exit.
  abbrev pub gone : Tcbs
  gone = record s { exited = update s.exited tcb true; status = update s.status tcb status }

  thr_exit_begin_lem : thr_exit_begin tid status s ≡ gone
  unfolding thr_exit_begin exit_found
  thr_exit_begin_lem = rw known refl

  thr_join-gone : thr_join tid gone ≡ joined status (remove_tcb tcb gone)
  unfolding thr_join join_found
  thr_join-gone =
      let set : update s.exited tcb true tcb ≡ true = ground arith in
      let value : update s.status tcb status tcb ≡ status = ground arith in
      rw (positive, known, set, value) refl

  -- When a thread with an id below 2^31 has told in thr_exit that it ends, a thr_join of that id
  -- returns the status it gave; and if this join comes before the rest of thr_exit, that rest
  -- reads the block after its memory has been given back.
  pub thr_exit-thr_join :
      (t : Tcbs) × (thr_join tid (thr_exit_begin tid status s) ≡ joined status t)
      × (thr_exit_end tcb t ≡ none)
  unfolding thr_exit_end remove_tcb
  thr_exit-thr_join = (
    remove_tcb tcb gone,
    ap (thr_join tid) thr_exit_begin_lem ∙ thr_join-gone,
    rw (eq_refl tcb) refl,
  )

exit_found-block :
    (status : ℕ) (o : Option ℕ) (s : Tcbs)
    → ((exit_found status o s).freed ≡ s.freed)
      × ((exit_found status o s).stack_base ≡ s.stack_base)
unfolding exit_found
exit_found-block status none s = (refl, refl)
exit_found-block status (some tcb) s = (refl, refl)

-- The stack that a thread was created with is not given back when it exits.
thr_create-thr_exit_end :
    (stack tcb tid status : ℕ) (s : Tcbs)
    → let t = thr_exit_begin tid status (thr_create (some stack) (some tcb) tid s).1 in
      thr_exit_end tcb t ≡ some t
unfolding thr_exit_end thr_exit_begin thr_create init_tcb add_tcb
thr_create-thr_exit_end stack tcb tid status s =
    let u = (thr_create (some stack) (some tcb) tid s).1 in
    let o = find_tcb u.id tid u.tcb_list in
    let (frees, bases) = exit_found-block status o u in
    let kept : (exit_found status o u).freed tcb ≡ false = ap (λ f. f tcb) frees ∙ ground arith in
    let base : (exit_found status o u).stack_base tcb ≡ 0 = ap (λ f. f tcb) bases ∙ ground arith in
    rw (kept, base) refl
