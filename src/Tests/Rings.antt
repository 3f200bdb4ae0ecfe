-- ===== src/Tests/Rings.antt =====
-- The theorems on the linked list at concrete inputs.
use scsi_cli.Prelude.{List, [], arith, false, if_null, refl, some, ◌∷◌, ◌≡◌}
use scsi_cli.Ring.{
  Links, init_list_head, list_add, list_del, list_empty, list_for_each, list_for_each_safe,
}
use scsi_cli.Ring.Apart.{edit_links-IsRing}
use scsi_cli.Ring.Edit.{IsRing, init_list_head-IsRing, list_add-IsRing}
use scsi_cli.Ring.Refines.{
  Edit, delete, edit_links, edits_links, edits_links-edits_sequence, to_back, to_front,
}
use scsi_cli.Ring.Walk.{list_for_each_safe-list_del}

-- Links that have not been set.
abbrev raw_links : Links
raw_links = record { next = λ x. 0; prev = λ x. 0 }

abbrev three_edits : List Edit
three_edits = to_front 5 ∷ to_back 7 ∷ to_front 3 ∷ delete 5 ∷ []

edits_links-edits_sequence_example :
    let h' = edits_links 1 three_edits (init_list_head 1 raw_links) in
    (list_for_each 3 (h'.next 1) 1 h' ≡ some (3 ∷ 7 ∷ [])) × (list_empty 1 h' ≡ false)
edits_links-edits_sequence_example =
    edits_links-edits_sequence 1 three_edits raw_links (ground arith)

list_five : IsRing (list_add 5 1 (init_list_head 1 raw_links)) 1 (5 ∷ [])
list_five =
    list_add-IsRing (init_list_head 1 raw_links) 5 1 [] (ground arith)
      (init_list_head-IsRing raw_links 1)

list_for_each_safe-list_del_example :
    if_null
      (list_for_each_safe 2 list_del 5 1 1 (list_add 5 1 (init_list_head 1 raw_links)))
      ⊥
      (λ h'. IsRing h' 1 [])
unfolding list_add init_list_head
list_for_each_safe-list_del_example =
    list_for_each_safe-list_del (list_add 5 1 (init_list_head 1 raw_links)) 1 (5 ∷ []) list_five

abbrev two_lists : Links
two_lists = init_list_head 8 (init_list_head 1 raw_links)

edit_links-IsRing_example :
    IsRing (edit_links 1 (to_front 5) two_lists) 1 (5 ∷ [])
    × IsRing (edit_links 1 (to_front 5) two_lists) 8 []
unfolding init_list_head
edit_links-IsRing_example =
    edit_links-IsRing two_lists 1 8 (to_front 5) [] [] (ground arith) (ground arith)
      ((refl, refl), (tt, tt)) (ground arith) ((refl, refl), (tt, tt))
