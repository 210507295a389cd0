-- ===== src/ListHead/Delete.antt =====
-- `del_entry` takes one node out of the list that holds it.
use p.Base.{ℕ, ◌≡◌, ◌∷◌, [], List, ◌++◌, arith, ◌∉◌, Distinct, Distinct-drop, has-append}
use p.ListHead.Defs.{Links, set_next, set_prev, del_entry}
use p.ListHead.Chain.{Chain, IsList, last_from, first_or, Chain-frame, ne-last_from, ne-first_or}

Chain-at :
    (h : Links) (n a : ℕ) (xs ys : List ℕ) (b : ℕ)
    → Chain h a (xs ++ n ∷ ys) b
    → (h.prev n ≡ last_from a xs) × (h.next n ≡ first_or ys b)
Chain-at h n a [] [] b k = ground arith
Chain-at h n a [] (y ∷ ys) b k = ground arith
Chain-at h n a (x ∷ xs) ys b k = Chain-at h n x xs ys b k.2

abbrev bypass : (prev next : ℕ) → Links → Links
bypass prev next h = set_prev next prev (set_next prev next h)

Chain-bypass :
    (h : Links) (n a : ℕ) (xs ys : List ℕ) (b : ℕ)
    → Chain h a (xs ++ n ∷ ys) b
    → Distinct (a ∷ xs ++ n ∷ ys)
    → b ∉ xs ++ n ∷ ys
    → Chain (bypass (last_from a xs) (first_or ys b) h) a (xs ++ ys) b
Chain-bypass h n a [] [] b k d out = ground arith
Chain-bypass h n a [] (y ∷ ys) b k d out = (
  ground arith,
  ground arith,
  Chain-frame h _ y ys b k.2.2 (λ c i. ground arith) (λ c i. ground arith) (ground arith),
)
Chain-bypass h n a (x ∷ xs) ys b k d out = (
  ground (arith, ne-last_from a x xs (n ∷ ys)),
  ground (arith, ne-first_or x xs ys b, has-append x xs (n ∷ ys), has-append x xs ys),
  Chain-bypass h n x xs ys b k.2 d.1 (ground arith),
)

module _ {h : Links} {head : ℕ} (n : ℕ) (xs ys : List ℕ) (l : IsList h head (xs ++ n ∷ ys)) where
  not-mem : n ∉ head ∷ xs ++ ys
  not-mem =
      ground (arith, Distinct-drop n xs ys l.distinct.1, l.distinct, has-append head xs (n ∷ ys))

  del_entry-bypass : del_entry n h ≡ bypass (last_from head xs) (first_or ys head) h
  unfolding del_entry
  del_entry-bypass =
      let ne = ne-last_from n head xs ys not-mem in
      ground (arith, Chain-at h n head xs ys head l.chain)

  -- del_entry of a node of a list leaves the other nodes in their order, and the node is not
  -- among them.
  pub del_entry-IsList : IsList (del_entry n h) head (xs ++ ys) × (n ∉ head ∷ xs ++ ys)
  del_entry-IsList = (
    rw del_entry-bypass (record {
      chain = Chain-bypass h n head xs ys head l.chain l.distinct l.distinct.0;
      distinct = (
        ground (arith, l.distinct, has-append head xs (n ∷ ys), has-append head xs ys),
        (Distinct-drop n xs ys l.distinct.1).0,
      );
    }),
    not-mem,
  )
