-- ===== src/ListHead/Concat.antt =====
-- `concat_lists` moves the nodes of the second list behind those of the first.
use p.Base.{
  ℕ, ◌≡◌, refl, ◌≢◌, ◌∷◌, [], List, ◌++◌, arith, ◌∈◌, ◌∉◌, Distinct, subst, has-append, append-nil,
}
use p.ListHead.Defs.{Links, set_next, set_prev, init_head, concat_lists, join_tails, move_nodes}
use p.ListHead.Chain.{
  Chain, IsList, last_from, last_from-mem, ne_of_mem, Chain-frame, get_first_last, prev-last,
}

-- The end of a chain is moved to `e` by a write at each side.
Chain-end :
    (h : Links) (a : ℕ) (xs : List ℕ) (b e : ℕ)
    → Chain h a xs b
    → Distinct (a ∷ xs)
    → e ∉ xs
    → Chain (set_prev e (last_from a xs) (set_next (last_from a xs) e h)) a xs e
Chain-end h a [] b e k d out = ground arith
Chain-end h a (x ∷ xs) b e k d out = (
  ground (arith, last_from-mem x xs, ne_of_mem a (last_from x xs) (x ∷ xs)),
  ground arith,
  Chain-end h x xs b e k.2 d.1 (ground arith),
)

Chain-append :
    (h : Links) (a : ℕ) (xs : List ℕ) (y : ℕ) (ys : List ℕ) (b : ℕ)
    → Chain h a xs y
    → Chain h y ys b
    → Chain h a (xs ++ y ∷ ys) b
Chain-append h a [] y ys b k l = (k.0, k.1, l)
Chain-append h a (x ∷ xs) y ys b k l = (k.0, k.1, Chain-append h x xs y ys b k.2 l)

abbrev pub Disjoint : List ℕ → List ℕ → Type 0
Disjoint xs ys = (c : ℕ) → c ∈ xs → c ∉ ys

Distinct-append :
    (xs ys : List ℕ) → Distinct xs → Distinct ys → Disjoint xs ys → Distinct (xs ++ ys)
Distinct-append [] ys d e apart = e
Distinct-append (x ∷ xs) ys d e apart = (
  ground (arith, has-append x xs ys, apart x),
  Distinct-append xs ys d.1 e (λ c i. apart c (ground arith)),
)

-- A node of one list is none of another list's.
apart-ne : (a b : ℕ) (xs ys : List ℕ) → Disjoint xs ys → a ∈ xs → b ∈ ys → a ≢ b
apart-ne a b xs ys apart i j = ground (arith, apart a, ne_of_mem a b ys)

last_from-append :
    (a : ℕ) (xs : List ℕ) (y : ℕ) (ys : List ℕ) → last_from a (xs ++ y ∷ ys) ≡ last_from y ys
last_from-append a [] y ys = refl
last_from-append a (x ∷ xs) y ys = last_from-append x xs y ys

module _ {h : Links} {first second : ℕ} where
  move_nodes-IsList :
      (y : ℕ) (ys : List ℕ)
      → IsList h second (y ∷ ys)
      → first ∉ second ∷ y ∷ ys
      → let g = move_nodes first second y (last_from y ys) h in
        IsList g first (y ∷ ys) × IsList g second []
  unfolding move_nodes init_head
  move_nodes-IsList y ys l out =
      let moved = Chain-end h y ys second first l.chain.2 l.distinct.1 (ground arith) in
      let m = last_from-mem y ys in
      let ne = ne_of_mem second (last_from y ys) (y ∷ ys) m l.distinct.0 in
      let ne' = ne_of_mem first (last_from y ys) (y ∷ ys) m (ground arith) in
      (
        record {
          chain = (
            ground arith,
            ground arith,
            Chain-frame _ _ y ys first moved
                (λ c i.
                  ground (
                    arith,
                    ne_of_mem second c (y ∷ ys) i l.distinct.0,
                    ne_of_mem first c (y ∷ ys) i,
                  ))
                (λ c i. ground (arith, ne_of_mem second c ys i, ne_of_mem y c ys i l.distinct.1.0))
                (ground arith),
          );
          distinct = (ground arith, l.distinct.1);
        },
        record { chain = ground arith; distinct = (refl, tt) },
      )

  module _ (x : ℕ) (xs : List ℕ) (y : ℕ) (ys : List ℕ) (l : IsList h first (x ∷ xs))
      (l' : IsList h second (y ∷ ys)) (apart : Disjoint (first ∷ x ∷ xs) (second ∷ y ∷ ys)) where
    Distinct-both : Distinct (first ∷ x ∷ xs ++ y ∷ ys)
    Distinct-both =
        Distinct-append (first ∷ x ∷ xs) (y ∷ ys) l.distinct l'.distinct.1
          (λ c i. ground (arith, apart c i))

    -- Behind the first two writes the nodes of both lists form one chain.
    Chain-linked :
        Chain
          (set_prev y (last_from x xs) (set_next (last_from x xs) y h))
          first
          (x ∷ xs ++ y ∷ ys)
          second
    Chain-linked =
        Chain-append _ first (x ∷ xs) y ys second
          (Chain-end h first (x ∷ xs) first y l.chain l.distinct (ground (arith, apart y)))
          (Chain-frame h _ y ys second l'.chain.2
            (λ c i. ground (
              arith,
              apart-ne (last_from x xs) c (first ∷ x ∷ xs) (second ∷ y ∷ ys) apart,
              last_from-mem x xs,
            ))
            (λ c i. ground (arith, ne_of_mem y c ys i l'.distinct.1.0))
            (ground (arith, l'.distinct)))

    join_tails-IsList :
        IsList (join_tails first (last_from x xs) y (last_from y ys) h) first (x ∷ xs ++ y ∷ ys)
    unfolding join_tails
    join_tails-IsList = record {
      chain =
          subst
            (λ t.
              Chain
                (set_prev first t
                  (set_next t first (set_prev y (last_from x xs) (set_next (last_from x xs) y h))))
                first (x ∷ xs ++ y ∷ ys) first)
            (last_from-append first (x ∷ xs) y ys)
            (Chain-end _ first (x ∷ xs ++ y ∷ ys) second first Chain-linked Distinct-both
              Distinct-both.0);
      distinct = Distinct-both;
    }

module _ {h : Links} {first second : ℕ} where
  -- For two lists without common nodes, concat_lists leaves in the first the nodes of the first
  -- and then those of the second, in their orders, on every branch.
  pub concat_lists-IsList :
      (xs ys : List ℕ)
      → IsList h first xs
      → IsList h second ys
      → Disjoint (first ∷ xs) (second ∷ ys)
      → IsList (concat_lists first second h) first (xs ++ ys)
  unfolding concat_lists
  concat_lists-IsList xs [] l l' apart = rw ((get_first_last l').0, concat_lists, append-nil) l
  concat_lists-IsList [] (y ∷ ys) l l' apart =
      rw
        (
          (get_first_last l').0,
          concat_lists,
          (get_first_last l).0,
          concat_lists,
          prev-last h second (y ∷ ys) second l'.chain,
        )
        ((move_nodes-IsList y ys l' (ground (arith, apart first))).0)
  concat_lists-IsList (x ∷ xs) (y ∷ ys) l l' apart =
      rw
        (
          (get_first_last l').0,
          concat_lists,
          (get_first_last l).0,
          concat_lists,
          prev-last h second (y ∷ ys) second l'.chain,
          prev-last h first (x ∷ xs) first l.chain,
        )
        (join_tails-IsList x xs y ys l l' apart)

  -- When the first list is empty, concat_lists leaves the second one as an empty list.
  concat_lists-second :
      (ys : List ℕ)
      → IsList h first []
      → IsList h second ys
      → first ∉ second ∷ ys
      → IsList (concat_lists first second h) second []
  unfolding concat_lists
  concat_lists-second [] l l' out = rw ((get_first_last l').0, concat_lists) l'
  concat_lists-second (y ∷ ys) l l' out =
      rw
        (
          (get_first_last l').0,
          concat_lists,
          (get_first_last l).0,
          concat_lists,
          prev-last h second (y ∷ ys) second l'.chain,
        )
        ((move_nodes-IsList y ys l' out).1)
