-- ===== src/Ring/Refines.antt =====
-- utils.h: a program that edits one list through list_add, list_add_tail and list_del, and the
-- sequence that it stands for.
use scsi_cli.Prelude.{
  Bool, Bool-cases, List, [], ap, arith, false, if◌then◌else◌, inl, inr, length, refl, some, subst,
  sym, true, ℕ, ◌++◌, ◌+◌, ◌==◌, ◌||◌, ◌∷◌, ◌≡◌,
}
use scsi_cli.Ring.{
  Links, init_list_head, list_add, list_add_tail, list_del, list_empty, list_for_each,
}
use scsi_cli.Ring.Delete.{list_del-IsRing}
use scsi_cli.Ring.Distinct.{Avoids}
use scsi_cli.Ring.Edit.{
  IsRing, init_list_head-IsRing, list_add-IsRing, list_add_tail-IsRing, list_empty-IsRing,
}
use scsi_cli.Ring.Walk.{list_for_each-IsRing}

pub data Edit : Type 0 where
  to_front : ℕ → Edit
  to_back : ℕ → Edit
  delete : ℕ → Edit

-- What the calls do to the links.
abbrev pub edit_links : ℕ → Edit → Links → Links
edit_links list (to_front node) h = list_add node list h
edit_links list (to_back node) h = list_add_tail node list h
edit_links list (delete node) h = list_del node h

-- A sequence without one of its elements.
abbrev pub without : ℕ → List ℕ → List ℕ
without a [] = []
without a (x ∷ xs) = let rest = without a xs in if x == a then xs else x ∷ rest

-- What the calls mean.
abbrev pub edit_sequence : Edit → List ℕ → List ℕ
edit_sequence (to_front node) xs = node ∷ xs
edit_sequence (to_back node) xs = xs ++ (node ∷ [])
edit_sequence (delete node) xs = without node xs

abbrev pub contains : ℕ → List ℕ → Bool
contains a [] = false
contains a (x ∷ xs) = x == a || contains a xs

-- A node is added only where it is not in the list, and deleted only where it is.
abbrev pub IsAllowed : ℕ → Edit → List ℕ → Type 0
IsAllowed list (to_front node) xs = Avoids node (list ∷ xs)
IsAllowed list (to_back node) xs = Avoids node (list ∷ xs)
IsAllowed list (delete node) xs = contains node xs ≡ true

abbrev pub edits_links : ℕ → List Edit → Links → Links
edits_links list [] h = h
edits_links list (e ∷ es) h = edits_links list es (edit_links list e h)

abbrev pub edits_sequence : List Edit → List ℕ → List ℕ
edits_sequence [] xs = xs
edits_sequence (e ∷ es) xs = edits_sequence es (edit_sequence e xs)

abbrev pub AreAllowed : ℕ → List Edit → List ℕ → Type 0
AreAllowed list [] xs = Unit
AreAllowed list (e ∷ es) xs = IsAllowed list e xs × AreAllowed list es (edit_sequence e xs)

step : (b c : Bool) → b ≡ false → (b || c) ≡ true → c ≡ true
step true c e h = absurd (cc e)
step false c e h = h

pub without-split :
    (a : ℕ) (xs : List ℕ)
    → contains a xs ≡ true
    → (us : List ℕ) × (vs : List ℕ) × ((xs ≡ us ++ (a ∷ vs)) × (without a xs ≡ us ++ vs))
without-split a [] h = absurd (cc h)
without-split a (x ∷ xs) h = elim (Bool-cases (x == a)) [
  | inl same ↦ let e : x ≡ a = ground (arith, same) in ([], xs, (ap (λ y. y ∷ xs) e, rw same refl))
  | inr other ↦
      let (us, vs, p) = without-split a xs (step (x == a) (contains a xs) other h) in
      (x ∷ us, vs, (ap (λ r. x ∷ r) p.0, rw other (ap (λ r. x ∷ r) p.1)))
]

pub edit-IsRing :
    (list : ℕ) (e : Edit) (h : Links) (xs : List ℕ)
    → IsAllowed list e xs
    → IsRing h list xs
    → IsRing (edit_links list e h) list (edit_sequence e xs)
edit-IsRing list (to_front node) h xs allowed r = list_add-IsRing h node list xs allowed r
edit-IsRing list (to_back node) h xs allowed r = list_add_tail-IsRing h node list xs allowed r
edit-IsRing list (delete node) h xs allowed r =
    let (us, vs, p) = without-split node xs allowed in
    subst (IsRing (list_del node h) list) (sym p.1)
      (list_del-IsRing h list us node vs (subst (IsRing h list) p.0 r))

edits-IsRing :
    (list : ℕ) (es : List Edit) (h : Links) (xs : List ℕ)
    → AreAllowed list es xs
    → IsRing h list xs
    → IsRing (edits_links list es h) list (edits_sequence es xs)
edits-IsRing list [] h xs allowed r = r
edits-IsRing list (e ∷ es) h xs allowed r =
    edits-IsRing list es (edit_links list e h) (edit_sequence e xs) allowed.1
      (edit-IsRing list e h xs allowed.0 r)

-- For any series of calls of list_add, list_add_tail and list_del on a list that INIT_LIST_HEAD
-- has made, in which a node is added only where it is not in the list and deleted only where it
-- is, list_for_each visits exactly the nodes of the sequence that the calls stand for, in its
-- order, and list_empty tells whether it is empty.
pub edits_links-edits_sequence :
    (list : ℕ) (es : List Edit) (h : Links)
    → AreAllowed list es []
    → let h' = edits_links list es (init_list_head list h) in
      let xs = edits_sequence es [] in
      (list_for_each (length xs + 1) (h'.next list) list h' ≡ some xs)
      × (list_empty list h' ≡ (length xs == 0))
edits_links-edits_sequence list es h allowed =
    let r =
      edits-IsRing list es (init_list_head list h) [] allowed (init_list_head-IsRing h list) in
    (
      list_for_each-IsRing (edits_links list es (init_list_head list h)) list (edits_sequence es [])
          r,
      list_empty-IsRing (edits_links list es (init_list_head list h)) list (edits_sequence es []) r,
    )
