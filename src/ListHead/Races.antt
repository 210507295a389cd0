-- ===== src/ListHead/Races.antt =====
-- concat_lists in do_vanish of kern/core/wait_vanish.c. mutex_lock has turned interrupts on again
-- there, so a child that exits may delete its link between the reads and the writes of concat_lists.
use p.Base.{ℕ, ◌≡◌, ◌≢◌, refl, ◌∷◌, [], List, ◌++◌, arith, ◌∉◌, ◌∈◌, has-append, subst}
use p.ListHead.Defs.{Links, del_entry, concat_lists, join_tails}
use p.ListHead.Chain.{Chain, IsList, get_first_last}
use p.ListHead.Delete.{del_entry-IsList}
use p.ListHead.Concat.{Disjoint, concat_lists-IsList}

-- The `next` fields from `a` through `xs` to `b`.
abbrev pub Walk : Links → ℕ → List ℕ → ℕ → Type 0
Walk h a [] b = h.next a ≡ b
Walk h a (x ∷ xs) b = (h.next a ≡ x) × Walk h x xs b

Chain-Walk :
    (h g : Links) (a : ℕ) (xs : List ℕ) (b : ℕ)
    → Chain h a xs b
    → ((c : ℕ) → c ∈ a ∷ xs → g.next c ≡ h.next c)
    → Walk g a xs b
Chain-Walk h g a [] b k same = ground (arith, same a)
Chain-Walk h g a (x ∷ xs) b k same =
    (ground (arith, same a), Chain-Walk h g x xs b k.2 (λ c i. same c (ground arith)))

-- The writes after the deletion and without it leave the same `next` fields but in the second head.
same_next :
    (h : Links) (first second tail_one n tail_two c : ℕ)
    → h.prev n ≡ second
    → c ≢ second
    → (join_tails first tail_one n tail_two (del_entry n h)).next c
      ≡ (join_tails first tail_one n tail_two h).next c
unfolding join_tails del_entry
same_next h first second tail_one n tail_two c e ne = ground arith

module _ {h : Links} {first second : ℕ} (x : ℕ) (xs : List ℕ) (n : ℕ) (ys : List ℕ) where
  joins :
      IsList h first (x ∷ xs)
      → IsList h second (n ∷ ys)
      → concat_lists first second h ≡ join_tails first (h.prev first) n (h.prev second) h
  unfolding concat_lists
  joins l l' = rw ((get_first_last l').0, concat_lists, (get_first_last l).0) refl

  -- For two lists with nodes, without common nodes, the writes of concat_lists are those of
  -- join_tails with the nodes that were read. When del_entry takes the first node of the second
  -- list out of it before these writes, the node is no longer in that list, and after the writes
  -- the first list leads through it again, as if it had not been deleted.
  pub concat_lists-del_entry :
      IsList h first (x ∷ xs)
      → IsList h second (n ∷ ys)
      → Disjoint (first ∷ x ∷ xs) (second ∷ n ∷ ys)
      → (concat_lists first second h ≡ join_tails first (h.prev first) n (h.prev second) h)
        × (IsList (del_entry n h) second ys × (n ∉ second ∷ ys))
        × Walk
            (join_tails first (h.prev first) n (h.prev second) (del_entry n h))
            first
            (x ∷ xs ++ n ∷ ys)
            first
  concat_lists-del_entry l l' apart =
      let whole = concat_lists-IsList (x ∷ xs) (n ∷ ys) l l' apart in
      let chain = subst (λ g. Chain g first (x ∷ xs ++ n ∷ ys) first) (joins l l') whole.chain in
      (
        joins l l',
        del_entry-IsList n [] ys l',
        Chain-Walk (join_tails first (h.prev first) n (h.prev second) h)
            (join_tails first (h.prev first) n (h.prev second) (del_entry n h)) first
            (x ∷ xs ++ n ∷ ys) first chain
            (λ c i.
              same_next h first second (h.prev first) n (h.prev second) c l'.chain.1 (outside c i)),
      )
    where
      outside : (c : ℕ) → c ∈ first ∷ x ∷ xs ++ n ∷ ys → c ≢ second
      outside c i = ground (arith, apart c, l'.distinct, has-append c xs (n ∷ ys))
