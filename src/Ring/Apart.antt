-- ===== src/Ring/Apart.antt =====
-- utils.h: an edit of one list and the other lists in memory.
use scsi_cli.Prelude.{All, List, [], subst, sym, ℕ, ◌++◌, ◌∷◌, ◌≢◌}
use scsi_cli.Loop.{after}
use scsi_cli.Ring.{Links, list_add, list_add_between, list_add_tail, list_del}
use scsi_cli.Ring.Delete.{joined, list_del_lem}
use scsi_cli.Ring.Distinct.{All-map, All-split, Avoids, flip}
use scsi_cli.Ring.Edit.{IsRing, between-Linked}
use scsi_cli.Ring.Refines.{
  Edit, IsAllowed, delete, edit-IsRing, edit_links, edit_sequence, to_back, to_front, without-split,
}
use scsi_cli.Ring.Segment.{Linked, Linked-same, Linked-split, prev-All, set-other}

-- No node of the first list, its head included, is in the second.
abbrev pub IsApart : List ℕ → List ℕ → Type 0
IsApart xs ys = All (λ x. Avoids x ys) xs

next-All :
    (P : ℕ → Type 0) (h : Links) (a : ℕ) (xs : List ℕ) (z : ℕ)
    → Linked h a xs z
    → All P xs
    → P z
    → P (h.next a)
next-All P h a [] z l p q = subst P (sym l.0) q
next-All P h a (x ∷ xs) z l p q = subst P (sym l.0.0) p.0

-- A new node between two others, none of the three in the list.
between-IsRing :
    (h : Links) (node before after other : ℕ) (ys : List ℕ)
    → Avoids node (other ∷ ys)
    → Avoids before (other ∷ ys)
    → Avoids after (other ∷ ys)
    → IsRing h other ys
    → IsRing (list_add_between node before after h) other ys
between-IsRing h node before after other ys p q r ring = (
  between-Linked h node before after other ys other p q r.1 (flip node other p.0)
      (flip after other r.0) ring.0,
  ring.1,
)

joined-IsRing :
    (h : Links) (before after other : ℕ) (ys : List ℕ)
    → Avoids before (other ∷ ys)
    → Avoids after (other ∷ ys)
    → IsRing h other ys
    → IsRing (joined before after h) other ys
unfolding joined
joined-IsRing h before after other ys p q ring =
    let keep_next =
      All-map (λ x. before ≢ x) _ (other ∷ ys)
        (λ x f. set-other h.next before after x (flip before x f)) p in
    let keep_prev =
      All-map (λ x. after ≢ x) _ ys (λ x f. set-other h.prev after before x (flip after x f)) q.1 in
    (
      Linked-same h (joined before after h) other ys other keep_next keep_prev
          (set-other h.prev after before other (flip after other q.0)) ring.0,
      ring.1,
    )

list_del-IsRing-apart :
    (h : Links) (list node other : ℕ) (us vs ys : List ℕ)
    → IsRing h list (us ++ (node ∷ vs))
    → IsApart (list ∷ (us ++ (node ∷ vs))) (other ∷ ys)
    → IsRing h other ys
    → IsRing (list_del node h) other ys
list_del-IsRing-apart h list node other us vs ys r apart ring =
    let P = λ (x : ℕ). Avoids x (other ∷ ys) in
    let parts = Linked-split h list us node vs list r.0 in
    let both = All-split P us (node ∷ vs) apart.1 in
    let before = prev-All P h list us node parts.0 (apart.0, both.0) in
    let after = next-All P h node vs list parts.1 both.1.1 apart.0 in
    subst (λ g. IsRing g other ys) (sym (list_del_lem h node))
      (joined-IsRing h (h.prev node) (h.next node) other ys before after ring)

-- The node of an edit is in no other list.
abbrev pub IsElsewhere : Edit → List ℕ → Type 0
IsElsewhere (to_front node) ys = Avoids node ys
IsElsewhere (to_back node) ys = Avoids node ys
IsElsewhere (delete node) ys = Unit

-- With two lists in memory that share no node, a call of list_add, list_add_tail or list_del on
-- the first, of a node that is in neither list or of a node of the first, leaves the links of both
-- well formed: the first holds the sequence that the call stands for, and the second is as it was.
pub edit_links-IsRing :
    (h : Links) (list other : ℕ) (e : Edit) (xs ys : List ℕ)
    → IsAllowed list e xs
    → IsElsewhere e (other ∷ ys)
    → IsRing h list xs
    → IsApart (list ∷ xs) (other ∷ ys)
    → IsRing h other ys
    → IsRing (edit_links list e h) list (edit_sequence e xs) × IsRing (edit_links list e h) other ys
unfolding list_add list_add_tail
edit_links-IsRing h list other (to_front node) xs ys allowed away r apart ring =
    let after = next-All (λ x. Avoids x (other ∷ ys)) h list xs list r.0 apart.1 apart.0 in
    (
      edit-IsRing list (to_front node) h xs allowed r,
      between-IsRing h node list (h.next list) other ys away apart.0 after ring,
    )
edit_links-IsRing h list other (to_back node) xs ys allowed away r apart ring =
    let before = prev-All (λ x. Avoids x (other ∷ ys)) h list xs list r.0 apart in
    (
      edit-IsRing list (to_back node) h xs allowed r,
      between-IsRing h node (h.prev list) list other ys away before apart.0 ring,
    )
edit_links-IsRing h list other (delete node) xs ys allowed away r apart ring =
    let (us, vs, p) = without-split node xs allowed in
    (
      edit-IsRing list (delete node) h xs allowed r,
      list_del-IsRing-apart h list node other us vs ys (subst (IsRing h list) p.0 r)
          (subst (λ zs. IsApart (list ∷ zs) (other ∷ ys)) p.0 apart) ring,
    )
