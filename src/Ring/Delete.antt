-- ===== src/Ring/Delete.antt =====
-- utils.h: list_del on a list that the links represent.
use scsi_cli.Prelude.{
  Bool-cases, List, [], ap, append_nil, inl, inr, refl, subst, sym, ℕ, ◌++◌, ◌==◌, ◌∙◌, ◌∷◌, ◌≡◌,
  ◌≢◌,
}
use scsi_cli.Loop.{after}
use scsi_cli.Ring.{Links, list_del, set, set_next, set_prev}
use scsi_cli.Ring.Distinct.{
  All-every, All-map, Avoids, Distinct, Distinct-cross, Distinct-left, Distinct-right,
  Distinct-without, flip,
}
use scsi_cli.Ring.Edit.{IsRing, next-first}
use scsi_cli.Ring.Segment.{
  Linked, Linked-append, Linked-relink, Linked-same, Linked-split, first_or, prev-All, set-other,
  set-same,
}

-- The two assignments of list_del with the neighbours that it finds.
unfoldable pub joined : (before after : ℕ) → Links → Links
joined before after h = record h { next = set h.next before after; prev = set h.prev after before }

set-found : (f : ℕ → ℕ) (a x : ℕ) → set f a (f x) x ≡ f x
unfolding set
set-found f a x = elim (Bool-cases (x == a)) [ inl same ↦ rw same refl | inr other ↦ rw other refl ]

pub list_del_lem : (h : Links) (node : ℕ) → list_del node h ≡ joined (h.prev node) (h.next node) h
unfolding list_del joined set_prev set_next
list_del_lem h node =
    ap
      (λ p. record h {
        next = set h.next p (h.next node);
        prev = set h.prev (h.next node) (h.prev node);
      })
      (set-found h.prev (h.next node) node)

joined-Linked :
    (h : Links) (before after list : ℕ) (us : List ℕ) (node : ℕ)
    → h.prev node ≡ before
    → Distinct (list ∷ us)
    → Avoids after us
    → Linked h list us node
    → Linked (joined before after h) list us after
unfolding joined
joined-Linked h before after list us node e d away l =
    let keep_next =
      All-every _ (list ∷ us) (λ x f. set-other h.next before after x (λ k. f (k ∙ sym e))) in
    let keep_prev =
      All-map (λ x. after ≢ x) _ us (λ x f. set-other h.prev after before x (flip after x f))
        away in
    Linked-relink h (joined before after h) list us node after d keep_next keep_prev
      (ap (set h.next before after) e ∙ set-same h.next before after)
      (set-same h.prev after before ∙ sym e) l

-- The stretch after the node.
joined-rest :
    (h : Links) (before list v : ℕ) (vs : List ℕ)
    → Avoids before (v ∷ vs)
    → Avoids v vs
    → list ≢ v
    → Linked h v vs list
    → Linked (joined before v h) v vs list
unfolding joined
joined-rest h before list v vs left right other l =
    let keep_next =
      All-map (λ x. before ≢ x) _ (v ∷ vs) (λ x f. set-other h.next before v x (flip before x f))
        left in
    let keep_prev =
      All-map (λ x. v ≢ x) _ vs (λ x f. set-other h.prev v before x (flip v x f)) right in
    Linked-same h (joined before v h) v vs list keep_next keep_prev
      (set-other h.prev v before list other) l

joined-all :
    (h : Links) (list : ℕ) (us : List ℕ) (node : ℕ) (vs : List ℕ)
    → Distinct (list ∷ (us ++ (node ∷ vs)))
    → Linked h list us node
    → Linked h node vs list
    → Linked (joined (h.prev node) (first_or vs list) h) list (us ++ vs) list
joined-all h list us node [] d p q =
    let front = Distinct-left (list ∷ us) (node ∷ []) d in
    subst (λ xs. Linked (joined (h.prev node) list h) list xs list) (sym (append_nil us))
      (joined-Linked h (h.prev node) list list us node refl front front.0 p)
joined-all h list us node (v ∷ vs) d p q =
    let front = Distinct-left (list ∷ us) (node ∷ v ∷ vs) d in
    let cross = Distinct-cross (list ∷ us) (node ∷ v ∷ vs) d in
    let back = Distinct-right (list ∷ us) (node ∷ v ∷ vs) d in
    let before = prev-All (λ x. Avoids x (node ∷ v ∷ vs)) h list us node p cross in
    let away = All-map (λ x. Avoids x (node ∷ v ∷ vs)) _ us (λ x f. flip x v f.1.0) cross.1 in
    Linked-append (joined (h.prev node) v h) list us v vs list
      (joined-Linked h (h.prev node) v list us node refl front away p)
      (joined-rest h (h.prev node) list v vs before.1 back.1.0 cross.0.1.0 q.1)

pub list_del-IsRing :
    (h : Links) (list : ℕ) (us : List ℕ) (node : ℕ) (vs : List ℕ)
    → IsRing h list (us ++ (node ∷ vs))
    → IsRing (list_del node h) list (us ++ vs)
list_del-IsRing h list us node vs r =
    let parts = Linked-split h list us node vs list r.0 in
    (
      subst (λ g. Linked g list (us ++ vs) list) (sym (list_del_lem h node))
          (subst (λ n. Linked (joined (h.prev node) n h) list (us ++ vs) list)
            (sym (next-first h node vs list parts.1))
            (joined-all h list us node vs r.1 parts.0 parts.1)),
      Distinct-without (list ∷ us) node vs r.1,
    )
