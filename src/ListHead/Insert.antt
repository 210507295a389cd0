-- ===== src/ListHead/Insert.antt =====
-- `add_to_list`, `add_to_tail` and `add_to_head` put a new node where they are asked to.
use p.Base.{
  ℕ, ◌≢◌, ◌∷◌, [], List, ◌++◌, arith, ◌∉◌, Distinct, Distinct-insert, has-append, append-nil,
}
use p.ListHead.Defs.{Links, add_to_list, add_to_tail, add_to_head}
use p.ListHead.Chain.{
  Chain, IsList, ne-last_from, ne-first_or, last_from, first_or, Chain-frame, next-first, prev-last,
}

Chain-insert :
    (h : Links) (n a : ℕ) (xs ys : List ℕ) (b : ℕ)
    → Chain h a (xs ++ ys) b
    → n ∉ a ∷ xs ++ ys
    → n ≢ b
    → Distinct (a ∷ xs ++ ys)
    → b ∉ xs ++ ys
    → Chain (add_to_list n (last_from a xs) (first_or ys b) h) a (xs ++ n ∷ ys) b
unfolding add_to_list
Chain-insert h n a [] [] b k fresh ne d out = ground arith
Chain-insert h n a [] (y ∷ ys) b k fresh ne d out = (
  ground arith,
  ground arith,
  (
    ground arith,
    ground arith,
    Chain-frame h _ y ys b k.2 (λ c i. ground arith) (λ c i. ground arith) (ground arith),
  ),
)
Chain-insert h n a (x ∷ xs) ys b k fresh ne d out = (
  ground (arith, ne-last_from a x xs ys),
  ground (arith, ne-first_or x xs ys b),
  Chain-insert h n x xs ys b k.2 (ground arith) ne d.1 (ground arith),
)

module _ {h : Links} {head : ℕ} (n : ℕ) where
  -- A node that is new, linked in between two neighbours of a list, stands between them, and the
  -- nodes before and behind it stay in their order.
  add_to_list-IsList :
      (xs ys : List ℕ)
      → IsList h head (xs ++ ys)
      → n ∉ head ∷ xs ++ ys
      → IsList (add_to_list n (last_from head xs) (first_or ys head) h) head (xs ++ n ∷ ys)
  add_to_list-IsList xs ys l fresh = record {
    chain = Chain-insert h n head xs ys head l.chain fresh (ground arith) l.distinct l.distinct.0;
    distinct = (
      ground (arith, l.distinct, has-append head xs (n ∷ ys), has-append head xs ys),
      Distinct-insert xs ys n l.distinct.1 (ground arith),
    );
  }

  -- add_to_tail of a node that is new puts it behind the nodes of a list, which stay in their
  -- order.
  pub add_to_tail-IsList :
      (xs : List ℕ)
      → IsList h head xs
      → n ∉ head ∷ xs
      → IsList (add_to_tail n head h) head (xs ++ n ∷ [])
  unfolding add_to_tail
  add_to_tail-IsList xs l fresh =
      rw (prev-last h head xs head l.chain)
        (add_to_list-IsList xs [] (rw append-nil l) (rw append-nil fresh))

  -- `add_to_head` puts the new node first.
  add_to_head-IsList :
      (xs : List ℕ) → IsList h head xs → n ∉ head ∷ xs → IsList (add_to_head n head h) head (n ∷ xs)
  unfolding add_to_head
  add_to_head-IsList xs l fresh =
      rw (next-first h head xs head l.chain) (add_to_list-IsList [] xs l fresh)
