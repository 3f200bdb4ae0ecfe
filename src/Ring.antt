-- ===== src/Ring.antt =====
-- utils.h: the circular doubly linked list. A node is an address; its two links are what the memory
-- holds at it.
pub mod Distinct
pub mod Segment
pub mod Edit
pub mod Delete
pub mod Walk
pub mod Refines
pub mod Apart
use mathlib.Core.Option
use scsi_cli.Prelude.{
  Bool, List, Option, [], if◌then◌else◌, map, none, some, suc, zero, ℕ, ◌==◌, ◌∷◌,
}
use scsi_cli.Loop.{after, next}

-- struct list_head
pub record Links : Type 0 where
  pub next : ℕ → ℕ
  pub prev : ℕ → ℕ

-- An assignment to one field of the node at an address.
unfoldable pub set : (ℕ → ℕ) → ℕ → ℕ → ℕ → ℕ
set f a v x = if x == a then v else f x

unfoldable pub set_next : ℕ → ℕ → Links → Links
unfolding set
set_next a v h = record h { next = set h.next a v }

unfoldable pub set_prev : ℕ → ℕ → Links → Links
unfolding set
set_prev a v h = record h { prev = set h.prev a v }

-- INIT_LIST_HEAD
unfoldable pub init_list_head : ℕ → Links → Links
unfolding set_next set_prev
init_list_head p h = set_prev p p (set_next p p h)

-- __list_add
unfoldable pub list_add_between : (node before after : ℕ) → Links → Links
unfolding set_next set_prev
list_add_between node before after h =
    set_next before node (set_prev node before (set_next node after (set_prev after node h)))

-- list_add
unfoldable pub list_add : (node list : ℕ) → Links → Links
unfolding list_add_between
list_add node list h = list_add_between node list (h.next list) h

-- list_add_tail
unfoldable pub list_add_tail : (node list : ℕ) → Links → Links
unfolding list_add_between
list_add_tail node list h = list_add_between node (h.prev list) list h

-- list_del
unfoldable pub list_del : (node : ℕ) → Links → Links
unfolding set_next set_prev
list_del node h =
    let h' = set_prev (h.next node) (h.prev node) h in set_next (h'.prev node) (h'.next node) h'

-- list_empty
unfoldable pub list_empty : (list : ℕ) → Links → Bool
list_empty list h = h.next list == list

-- list_for_each: the nodes at which the body runs, the body not changing the links. `none` is a loop
-- that has not ended after the given number of tests of its condition.
unfoldable pub list_for_each : (fuel node list : ℕ) → Links → Option (List ℕ)
list_for_each zero node list h = none
list_for_each (suc fuel) node list h =
    let rest = list_for_each fuel (h.next node) list h in
    if node == list then some [] else Option.map (λ visited. node ∷ visited) rest

-- list_for_each_safe with a body that changes the links.
unfoldable pub list_for_each_safe :
    (fuel : ℕ) → (ℕ → Links → Links) → (node following list : ℕ) → Links → Option Links
list_for_each_safe zero body node following list h = none
list_for_each_safe (suc fuel) body node following list h =
    let h' = body node h in
    let rest = list_for_each_safe fuel body following (h'.next following) list h' in
    if node == list then some h else rest
