-- ===== src/ListHead/Defs.antt =====
-- The functions of kern/list/list.c and `struct list_head` of kern/inc/list/list.h.
use p.Base.{ℕ, Option, none, some, ◌==◌, if◌then◌else◌, update}

-- The `next` and `prev` fields of the link at each address.
pub record Links : Type 0 where
  pub next : ℕ → ℕ
  pub prev : ℕ → ℕ

abbrev pub set_next : ℕ → ℕ → Links → Links
set_next node q h = record h { next = update h.next node q }

abbrev pub set_prev : ℕ → ℕ → Links → Links
set_prev node q h = record h { prev = update h.prev node q }

unfoldable pub init_head : ℕ → Links → Links
init_head head h = set_prev head head (set_next head head h)

unfoldable pub add_to_list : (new_node prev next : ℕ) → Links → Links
add_to_list new_node prev next h =
    set_prev next new_node
      (set_next prev new_node (set_prev new_node prev (set_next new_node next h)))

unfoldable pub add_to_tail : (new_node head : ℕ) → Links → Links
add_to_tail new_node head h = add_to_list new_node (h.prev head) head h

unfoldable pub add_to_head : (new_node head : ℕ) → Links → Links
add_to_head new_node head h = add_to_list new_node head (h.next head) h

-- The second statement reads the fields of `node` again, after the first write.
unfoldable pub del_entry : ℕ → Links → Links
del_entry node h =
    let h' = set_next (h.prev node) (h.next node) h in set_prev (h'.next node) (h'.prev node) h'

unfoldable pub get_first : ℕ → Links → Option ℕ
get_first head h = if h.next head == head then none else some (h.next head)

unfoldable pub get_last : ℕ → Links → Option ℕ
get_last head h = if h.prev head == head then none else some (h.prev head)

-- Both lists have nodes: the second is linked in behind the first.
unfoldable pub join_tails : (first tail_one head_two tail_two : ℕ) → Links → Links
join_tails first tail_one head_two tail_two h =
    set_prev first tail_two
      (set_next tail_two first (set_prev head_two tail_one (set_next tail_one head_two h)))

-- The first list is empty: it takes the nodes of the second, which is left empty.
unfoldable pub move_nodes : (first second head_two tail_two : ℕ) → Links → Links
move_nodes first second head_two tail_two h = init_head second (
    set_next tail_two first
      (set_prev head_two first (set_prev first tail_two (set_next first head_two h))))

-- `get_first` and `get_last` of one list are NULL together wherever both are read, so the tails are
-- taken only where the source uses them.
unfoldable pub concat_lists : (first second : ℕ) → Links → Links
concat_lists first second h = elim (get_first second h) [
  | none ↦ h
  | some head_two ↦ elim (get_first first h) [
    | none ↦ move_nodes first second head_two (h.prev second) h
    | some _ ↦ join_tails first (h.prev first) head_two (h.prev second) h
  ]
]
