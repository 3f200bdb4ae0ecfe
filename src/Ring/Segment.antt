-- ===== src/Ring/Segment.antt =====
-- utils.h: a stretch of a linked list, its links and what a change elsewhere leaves of it.
use scsi_cli.Prelude.{All, List, [], ap, arith, sym, ℕ, ◌++◌, ◌∙◌, ◌∷◌, ◌≡◌, ◌≢◌}
use scsi_cli.Ring.{Links, set}
use scsi_cli.Ring.Distinct.{Distinct}

-- From `a` along `xs` to `z`, and back.
abbrev pub Linked : Links → ℕ → List ℕ → ℕ → Type 0
Linked h a [] z = (h.next a ≡ z) × (h.prev z ≡ a)
Linked h a (x ∷ xs) z = ((h.next a ≡ x) × (h.prev x ≡ a)) × Linked h x xs z

pub set-same : (f : ℕ → ℕ) (a v : ℕ) → set f a v a ≡ v
unfolding set
set-same f a v = ground arith

pub set-other : (f : ℕ → ℕ) (a v x : ℕ) → x ≢ a → set f a v x ≡ f x
unfolding set
set-other f a v x h = ground (arith, h)

pub Linked-append :
    (h : Links) (a : ℕ) (us : List ℕ) (b : ℕ) (vs : List ℕ) (z : ℕ)
    → Linked h a us b
    → Linked h b vs z
    → Linked h a (us ++ (b ∷ vs)) z
Linked-append h a [] b vs z p q = (p, q)
Linked-append h a (u ∷ us) b vs z p q = (p.0, Linked-append h u us b vs z p.1 q)

pub Linked-split :
    (h : Links) (a : ℕ) (us : List ℕ) (b : ℕ) (vs : List ℕ) (z : ℕ)
    → Linked h a (us ++ (b ∷ vs)) z
    → Linked h a us b × Linked h b vs z
Linked-split h a [] b vs z p = p
Linked-split h a (u ∷ us) b vs z p =
    let both = Linked-split h u us b vs z p.1 in ((p.0, both.0), both.1)

-- The last node of the stretch is the one before its end.
pub prev-All :
    (P : ℕ → Type 0) (h : Links) (a : ℕ) (us : List ℕ) (z : ℕ)
    → Linked h a us z
    → All P (a ∷ us)
    → P (h.prev z)
prev-All P h a [] z p q = rw p.1 q.0
prev-All P h a (u ∷ us) z p q = prev-All P h u us z p.1 q.1

-- Links that are the same at every node of the stretch.
pub Linked-same :
    (h h' : Links) (a : ℕ) (us : List ℕ) (z : ℕ)
    → All (λ x. h'.next x ≡ h.next x) (a ∷ us)
    → All (λ x. h'.prev x ≡ h.prev x) us
    → h'.prev z ≡ h.prev z
    → Linked h a us z
    → Linked h' a us z
Linked-same h h' a [] z n p e l = (n.0 ∙ l.0, e ∙ l.1)
Linked-same h h' a (u ∷ us) z n p e l =
    ((n.0 ∙ l.0.0, p.0 ∙ l.0.1), Linked-same h h' u us z n.1 p.1 e l.1)

-- The stretch with another end, to which its last node is linked.
pub Linked-relink :
    (h h' : Links) (a : ℕ) (us : List ℕ) (z b : ℕ)
    → Distinct (a ∷ us)
    → All (λ x. x ≢ h.prev z → h'.next x ≡ h.next x) (a ∷ us)
    → All (λ x. h'.prev x ≡ h.prev x) us
    → h'.next (h.prev z) ≡ b
    → h'.prev b ≡ h.prev z
    → Linked h a us z
    → Linked h' a us b
Linked-relink h h' a [] z b d n p e f l = (ap h'.next (sym l.1) ∙ e, f ∙ l.1)
Linked-relink h h' a (u ∷ us) z b d n p e f l =
    let away : a ≢ h.prev z = prev-All (λ x. a ≢ x) h u us z l.1 d.0 in
    ((n.0 away ∙ l.0.0, p.0 ∙ l.0.1), Linked-relink h h' u us z b d.1 n.1 p.1 e f l.1)

abbrev pub first_or : List ℕ → ℕ → ℕ
first_or [] z = z
first_or (x ∷ xs) z = x
