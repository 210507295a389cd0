-- ===== src/ListHead/Tests.antt =====
-- Runs of the list functions, and the theorems about them at concrete lists.
use p.Base.{◌≡◌, refl, ◌∷◌, [], arith, ◌∉◌, some, none}
use p.ListHead.Defs.{
  Links, init_head, add_to_list, add_to_tail, del_entry, get_first, get_last, concat_lists,
  join_tails,
}
use p.ListHead.Chain.{IsList, init_head-IsList}
use p.ListHead.Delete.{del_entry-IsList}
use p.ListHead.Concat.{concat_lists-IsList, Disjoint}
use p.ListHead.Races.{Walk, concat_lists-del_entry}

abbrev blank : Links
blank = record { next = λ a. 7; prev = λ a. 9 }

-- Head 100 with the nodes 1, 2, 3, head 200 with the nodes 4, 5, and head 300 with none.
abbrev both : Links
unfolding init_head add_to_tail add_to_list
both = add_to_tail 5 200 (
    add_to_tail 4 200 (
      add_to_tail 3 100 (
        add_to_tail 2 100
          (add_to_tail 1 100 (init_head 300 (init_head 200 (init_head 100 blank)))))))

three : IsList both 100 (1 ∷ 2 ∷ 3 ∷ [])
unfolding both
three = record { chain = omega arith; distinct = ground arith }

two : IsList both 200 (4 ∷ 5 ∷ [])
unfolding both
two = record { chain = omega arith; distinct = ground arith }

zero_nodes : IsList both 300 []
unfolding both
zero_nodes = record { chain = omega arith; distinct = ground arith }

first_run :
    (get_first 100 both ≡ some 1) × (get_last 200 both ≡ some 5) × (get_first 300 both ≡ none)
unfolding both get_first get_last
first_run = (refl, refl, refl)

delete_run : get_first 100 (del_entry 1 both) ≡ some 2
unfolding both get_first del_entry
delete_run = refl

init_head-IsList_example : IsList (init_head 100 blank) 100 []
init_head-IsList_example = init_head-IsList 100 blank

del_entry-IsList_example : IsList (del_entry 2 both) 100 (1 ∷ 3 ∷ []) × (2 ∉ 100 ∷ 1 ∷ 3 ∷ [])
del_entry-IsList_example = del_entry-IsList 2 (1 ∷ []) (3 ∷ []) three

apart : Disjoint (100 ∷ 1 ∷ 2 ∷ 3 ∷ []) (200 ∷ 4 ∷ 5 ∷ [])
apart c i = ground arith

concat_lists-IsList_example : IsList (concat_lists 100 200 both) 100 (1 ∷ 2 ∷ 3 ∷ 4 ∷ 5 ∷ [])
concat_lists-IsList_example = concat_lists-IsList (1 ∷ 2 ∷ 3 ∷ []) (4 ∷ 5 ∷ []) three two apart

-- The child 4 exits while its parent, the head 200, hands its children over to the head 100.
concat_lists-del_entry_example :
    (concat_lists 100 200 both ≡ join_tails 100 3 4 5 both)
    × (IsList (del_entry 4 both) 200 (5 ∷ []) × (4 ∉ 200 ∷ 5 ∷ []))
    × Walk (join_tails 100 3 4 5 (del_entry 4 both)) 100 (1 ∷ 2 ∷ 3 ∷ 4 ∷ 5 ∷ []) 100
unfolding both
concat_lists-del_entry_example = concat_lists-del_entry 1 (2 ∷ 3 ∷ []) 4 (5 ∷ []) three two apart
