-- ===== src/Ring/Walk.antt =====
-- utils.h: the loops over a list.
use scsi_cli.Prelude.{
  List, [], arith, false, if_null, length, refl, some, suc, sym, true, ℕ, ◌+◌, ◌==◌, ◌∙◌, ◌∷◌, ◌≡◌,
}
use scsi_cli.Ring.{Links, list_del, list_for_each, list_for_each_safe}
use scsi_cli.Ring.Delete.{list_del-IsRing}
use scsi_cli.Ring.Distinct.{Avoids}
use scsi_cli.Ring.Edit.{IsRing, next-first}
use scsi_cli.Ring.Segment.{Linked}

walk :
    (h : Links) (list a : ℕ) (xs : List ℕ)
    → Avoids list xs
    → Linked h a xs list
    → list_for_each (suc (length xs)) (h.next a) list h ≡ some xs
unfolding list_for_each
walk h list a [] away l = let end : (h.next a == list) ≡ true = ground (arith, l.0) in rw end refl
walk h list a (x ∷ xs) away l =
    let more : (h.next a == list) ≡ false = ground (arith, l.0.0, away.0) in
    rw (more, l.0.0, walk h list x xs away.1 l.1) refl

-- x
pub list_for_each-IsRing :
    (h : Links) (list : ℕ) (xs : List ℕ)
    → IsRing h list xs
    → list_for_each (length xs + 1) (h.next list) list h ≡ some xs
list_for_each-IsRing h list xs r =
    let fuel : length xs + 1 ≡ suc (length xs) = omega arith in
    rw fuel (walk h list list xs r.1.0 r.0)

-- list_for_each_safe with list_del for its body ends on every list, after as many rounds as it has
-- nodes, and leaves the list empty.
pub list_for_each_safe-list_del :
    (h : Links) (list : ℕ) (xs : List ℕ)
    → IsRing h list xs
    → if_null
        (list_for_each_safe (suc (length xs)) list_del (h.next list) (h.next (h.next list)) list h)
        ⊥
        (λ h'. IsRing h' list [])
unfolding list_for_each_safe
list_for_each_safe-list_del h list [] r =
    let end : (h.next list == list) ≡ true = ground (arith, r.0.0) in rw end r
list_for_each_safe-list_del h list (x ∷ xs) r =
    let more : (h.next list == list) ≡ false = ground (arith, r.0.0.0, r.1.0.0) in
    let deleted = list_del-IsRing h list [] x xs r in
    let following : h.next x ≡ (list_del x h).next list =
      next-first h x xs list r.0.1 ∙ sym (next-first (list_del x h) list xs list deleted.0) in
    rw (more, r.0.0.0, following) (list_for_each_safe-list_del (list_del x h) list xs deleted)
