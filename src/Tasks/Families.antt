-- ===== src/Tasks/Families.antt =====
-- The parent that waits for a child which ends, and a fork that fails.
use p.Base.{
  ℕ, ◌≡◌, ◌≢◌, refl, List, [], ◌∷◌, ◌++◌, ◌∈◌, has-append, update, remove, arith, Bool-cases,
  eq_refl, inl, inr, subst, ap, ◌∙◌, none, some,
}
use p.Tasks.Defs.{
  dead, freed, Tasks, failure, do_fork, create_task, add_child, with_directory, is_empty,
  signal_exit, broadcast_exit, wake_parent, vanish_end, Wait, reaped, no_child, collect, do_wait,
}

signal_exit-dead : (p : ℕ) (q : List ℕ) (s : Tasks) → (signal_exit p q s).dead_child ≡ s.dead_child
unfolding signal_exit
signal_exit-dead p [] s = refl
signal_exit-dead p (x ∷ q) s = refl

signal_exit-status :
    (p : ℕ) (q : List ℕ) (s : Tasks) → (signal_exit p q s).exit_status ≡ s.exit_status
unfolding signal_exit
signal_exit-status p [] s = refl
signal_exit-status p (x ∷ q) s = refl

wake_parent-dead :
    (p : ℕ) (s : Tasks)
    → ((wake_parent p s).dead_child ≡ s.dead_child)
      × ((wake_parent p s).exit_status ≡ s.exit_status)
unfolding wake_parent broadcast_exit
wake_parent-dead p s = elim (Bool-cases (is_empty (s.child_task p))) [
  | inl e ↦ rw e (refl, refl)
  | inr e ↦ rw e (signal_exit-dead p (s.waiting p) s, signal_exit-status p (s.waiting p) s)
]

collect-first :
    (curr thr d : ℕ) (q a : List ℕ) (s : Tasks)
    → q ≡ d ∷ []
    → (t : Tasks) × (collect curr thr q a s ≡ reaped d (s.exit_status d) t)
unfolding collect
collect-first curr thr d [] a s e = absurd (cc)
collect-first curr thr d (x ∷ q) a s e =
    let same : x ≡ d = ground arith in
    subst
      (λ y.
        (t : Tasks) × (Wait.reaped x (s.exit_status x)
            (record s { life = update s.life x freed; dead_child = update s.dead_child curr q })
          ≡ reaped y (s.exit_status y) t))
      same
      (record s { life = update s.life x freed; dead_child = update s.dead_child curr q }, refl)

in_list :
    (p : ℕ) (q : List ℕ) (f : ℕ → List ℕ) (x : ℕ) → q ≡ [] → update f p (q ++ x ∷ []) p ≡ x ∷ []
in_list p q f x e = rw (eq_refl p, e) refl

-- When the last thread of a task ends and its parent has no dead child yet, the next wait of the
-- parent returns that task with the exit status it had.
pub vanish_end-do_wait :
    (curr thr : ℕ) (s : Tasks)
    → s.dead_child (s.parent curr) ≡ []
    → (t : Tasks) × (do_wait (s.parent curr) thr (vanish_end curr s)
        ≡ reaped curr (s.exit_status curr) t)
unfolding do_wait vanish_end
vanish_end-do_wait curr thr s empty =
    let p = s.parent curr in
    let t = record s {
      life = update s.life curr dead;
      child_task = update s.child_task p (remove curr (s.child_task p));
      dead_child = update s.dead_child p (s.dead_child p ++ curr ∷ []);
    } in
    let same = wake_parent-dead p t in
    let first : (wake_parent p t).dead_child p ≡ curr ∷ [] =
      ap (λ f. f p) same.0 ∙ in_list p (s.dead_child p) s.dead_child curr empty in
    let (u, e) =
      collect-first p thr curr ((wake_parent p t).dead_child p) ((wake_parent p t).child_task p)
        (wake_parent p t) first in
    (u, e ∙ (λ k. reaped curr (same.1 k curr) u))

has_child : (curr thr x : ℕ) (q a : List ℕ) (s : Tasks) → x ∈ a → collect curr thr q a s ≢ no_child
unfolding collect
has_child curr thr x (d ∷ q) a s m e = cc
has_child curr thr x [] (y ∷ a) s m e = cc
has_child curr thr x [] [] s m e = cc

listed : (child : ℕ) (q : List ℕ) (f : ℕ → List ℕ) (p : ℕ) → child ∈ update f p (q ++ child ∷ []) p
listed child q f p = ground (arith, has-append child q (child ∷ []))

-- When the address space cannot be cloned, do_fork returns ERR_FAILURE and frees the child, and
-- after that wait of the parent does not report that there is no child.
pub do_fork-failure :
    (curr child thr w : ℕ) (s : Tasks)
    → ((do_fork (some (child, thr)) none curr s).0 ≡ failure)
      × ((do_fork (some (child, thr)) none curr s).1.life child ≡ freed)
      × (do_wait curr w (do_fork (some (child, thr)) none curr s).1 ≢ no_child)
unfolding do_fork create_task add_child with_directory do_wait
do_fork-failure curr child thr w s = (
  refl,
  ground arith,
  has_child curr w child (update s.dead_child child [] curr)
      (update (update s.child_task child []) curr (update s.child_task child [] curr ++ child ∷ [])
        curr)
      (do_fork (some (child, thr)) none curr s).1
      (listed child (update s.child_task child [] curr) (update s.child_task child []) curr),
)
