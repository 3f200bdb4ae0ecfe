-- ===== src/Ring/Edit.antt =====
-- utils.h: the list that the links represent, and what list_add, list_add_tail and list_del make of
-- it.
use scsi_cli.Prelude.{List, [], arith, length, subst, sym, ℕ, ◌++◌, ◌==◌, ◌∙◌, ◌∷◌, ◌≡◌, ◌≢◌}
use scsi_cli.Loop.{after}
use scsi_cli.Ring.{
  Links, init_list_head, list_add, list_add_between, list_add_tail, list_empty, set, set_next,
  set_prev,
}
use scsi_cli.Ring.Distinct.{All-both, All-map, Avoids, Distinct, Distinct-snoc, flip}
use scsi_cli.Ring.Segment.{
  Linked, Linked-append, Linked-relink, Linked-same, first_or, prev-All, set-other, set-same,
}

-- `list` heads the nodes `xs`, each there once, in order.
abbrev pub IsRing : Links → ℕ → List ℕ → Type 0
IsRing h list xs = Linked h list xs list × Distinct (list ∷ xs)

pub init_list_head-IsRing : (h : Links) (list : ℕ) → IsRing (init_list_head list h) list []
unfolding init_list_head set_next set_prev
init_list_head-IsRing h list = ((set-same h.next list list, set-same h.prev list list), (tt, tt))

pub list_empty-IsRing :
    (h : Links) (list : ℕ) (xs : List ℕ) → IsRing h list xs → list_empty list h ≡ (length xs == 0)
unfolding list_empty
list_empty-IsRing h list [] r = ground (arith, r.0.0)
list_empty-IsRing h list (x ∷ xs) r =
    let first : h.next list ≡ x = r.0.0.0 in
    let other : list ≢ x = r.1.0.0 in ground (arith, first, other)

-- The links of a new node and of its neighbours.
between_next :
    (h : Links) (node before after : ℕ)
    → node ≢ before
    → (list_add_between node before after h).next node ≡ after
unfolding list_add_between set_next set_prev
between_next h node before after p =
    set-other (set h.next node after) before node node p ∙ set-same h.next node after

between_before :
    (h : Links) (node before after : ℕ) → (list_add_between node before after h).next before ≡ node
unfolding list_add_between set_next set_prev
between_before h node before after = set-same (set h.next node after) before node

between_prev :
    (h : Links) (node before after : ℕ) → (list_add_between node before after h).prev node ≡ before
unfolding list_add_between set_next set_prev
between_prev h node before after = set-same (set h.prev after node) node before

between_after :
    (h : Links) (node before after : ℕ)
    → after ≢ node
    → (list_add_between node before after h).prev after ≡ node
unfolding list_add_between set_next set_prev
between_after h node before after p =
    set-other (set h.prev after node) node before after p ∙ set-same h.prev after node

-- Elsewhere nothing changes.
between_next-other :
    (h : Links) (node before after x : ℕ)
    → x ≢ node
    → x ≢ before
    → (list_add_between node before after h).next x ≡ h.next x
unfolding list_add_between set_next set_prev
between_next-other h node before after x p q =
    set-other (set h.next node after) before node x q ∙ set-other h.next node after x p

between_prev-other :
    (h : Links) (node before after x : ℕ)
    → x ≢ node
    → x ≢ after
    → (list_add_between node before after h).prev x ≡ h.prev x
unfolding list_add_between set_next set_prev
between_prev-other h node before after x p q =
    set-other (set h.prev after node) node before x p ∙ set-other h.prev after node x q

-- A new node between two neighbours leaves every other stretch as it is.
pub between-Linked :
    (h : Links) (node before after a : ℕ) (us : List ℕ) (z : ℕ)
    → Avoids node (a ∷ us)
    → Avoids before (a ∷ us)
    → Avoids after us
    → z ≢ node
    → z ≢ after
    → Linked h a us z
    → Linked (list_add_between node before after h) a us z
between-Linked h node before after a us z fresh left right p q l =
    let keep_next =
      All-both (λ x. node ≢ x) (λ x. before ≢ x) _ (a ∷ us)
        (λ x f g. between_next-other h node before after x (flip node x f) (flip before x g)) fresh
        left in
    let keep_prev =
      All-both (λ x. node ≢ x) (λ x. after ≢ x) _ us
        (λ x f g. between_prev-other h node before after x (flip node x f) (flip after x g)) fresh.1
        right in
    Linked-same h (list_add_between node before after h) a us z keep_next keep_prev
      (between_prev-other h node before after z p q) l

between-first :
    (h : Links) (node list : ℕ) (xs : List ℕ)
    → Avoids node (list ∷ xs)
    → IsRing h list xs
    → IsRing (list_add_between node list (first_or xs list) h) list (node ∷ xs)
between-first h node list [] fresh r =
    let other = flip node list fresh.0 in
    (
      (
        (between_before h node list list, between_prev h node list list),
        (between_next h node list list fresh.0, between_after h node list list other),
      ),
      ((other, tt), (tt, tt)),
    )
between-first h node list (x ∷ xs) fresh r =
    let rest =
      between-Linked h node list x x xs list fresh.1 r.1.0 r.1.1.0 (flip node list fresh.0) r.1.0.0
        r.0.1 in
    (
      (
        (between_before h node list x, between_prev h node list x),
        (
          (between_next h node list x fresh.0, between_after h node list x (flip node x fresh.1.0)),
          rest,
        ),
      ),
      ((flip node list fresh.0, r.1.0), (fresh.1, r.1.1)),
    )

pub next-first :
    (h : Links) (a : ℕ) (xs : List ℕ) (z : ℕ) → Linked h a xs z → h.next a ≡ first_or xs z
next-first h a [] z l = l.0
next-first h a (x ∷ xs) z l = l.0.0

pub list_add-IsRing :
    (h : Links) (node list : ℕ) (xs : List ℕ)
    → Avoids node (list ∷ xs)
    → IsRing h list xs
    → IsRing (list_add node list h) list (node ∷ xs)
unfolding list_add
list_add-IsRing h node list xs fresh r =
    subst (λ n. IsRing (list_add_between node list n h) list (node ∷ xs))
      (sym (next-first h list xs list r.0)) (between-first h node list xs fresh r)

pub list_add_tail-IsRing :
    (h : Links) (node list : ℕ) (xs : List ℕ)
    → Avoids node (list ∷ xs)
    → IsRing h list xs
    → IsRing (list_add_tail node list h) list (xs ++ (node ∷ []))
unfolding list_add_tail
list_add_tail-IsRing h node list xs fresh r =
    let last = h.prev list in
    let h' = list_add_between node last list h in
    let keep_next =
      All-map (λ x. node ≢ x) _ (list ∷ xs)
        (λ x f g. between_next-other h node last list x (flip node x f) g) fresh in
    let keep_prev =
      All-both (λ x. node ≢ x) (λ x. list ≢ x) _ xs
        (λ x f g. between_prev-other h node last list x (flip node x f) (flip list x g)) fresh.1
        r.1.0 in
    let other : node ≢ last = prev-All (λ x. node ≢ x) h list xs list r.0 fresh in
    let front =
      Linked-relink h h' list xs list node r.1 keep_next keep_prev (between_before h node last list)
        (between_prev h node last list) r.0 in
    (
      Linked-append h' list xs node [] list front (
        between_next h node last list other,
        between_after h node last list (flip node list fresh.0),
      ),
      Distinct-snoc node (list ∷ xs) fresh r.1,
    )
