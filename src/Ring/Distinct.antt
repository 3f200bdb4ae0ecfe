-- ===== src/Ring/Distinct.antt =====
-- utils.h: lists of addresses in which no address is there twice.
use scsi_cli.Prelude.{All, List, [], sym, ℕ, ◌++◌, ◌∷◌, ◌≢◌}

abbrev pub Avoids : ℕ → List ℕ → Type 0
Avoids a xs = All (λ x. a ≢ x) xs

abbrev pub Distinct : List ℕ → Type 0
Distinct [] = Unit
Distinct (x ∷ xs) = Avoids x xs × Distinct xs

pub flip : (a x : ℕ) → a ≢ x → x ≢ a
flip a x h e = h (sym e)

pub All-map : (P Q : ℕ → Type 0) (xs : List ℕ) → ((x : ℕ) → P x → Q x) → All P xs → All Q xs
All-map P Q [] f h = tt
All-map P Q (x ∷ xs) f h = (f x h.0, All-map P Q xs f h.1)

pub All-every : (P : ℕ → Type 0) (xs : List ℕ) → ((x : ℕ) → P x) → All P xs
All-every P [] f = tt
All-every P (x ∷ xs) f = (f x, All-every P xs f)

pub All-append : (P : ℕ → Type 0) (xs ys : List ℕ) → All P xs → All P ys → All P (xs ++ ys)
All-append P [] ys p q = q
All-append P (x ∷ xs) ys p q = (p.0, All-append P xs ys p.1 q)

pub All-split : (P : ℕ → Type 0) (xs ys : List ℕ) → All P (xs ++ ys) → All P xs × All P ys
All-split P [] ys h = (tt, h)
All-split P (x ∷ xs) ys h = let both = All-split P xs ys h.1 in ((h.0, both.0), both.1)

pub All-both :
    (P Q R : ℕ → Type 0) (xs : List ℕ)
    → ((x : ℕ) → P x → Q x → R x)
    → All P xs
    → All Q xs
    → All R xs
All-both P Q R [] f p q = tt
All-both P Q R (x ∷ xs) f p q = (f x p.0 q.0, All-both P Q R xs f p.1 q.1)

pub Distinct-cross : (xs ys : List ℕ) → Distinct (xs ++ ys) → All (λ x. Avoids x ys) xs
Distinct-cross [] ys d = tt
Distinct-cross (x ∷ xs) ys d = ((All-split _ xs ys d.0).1, Distinct-cross xs ys d.1)

pub Distinct-left : (xs ys : List ℕ) → Distinct (xs ++ ys) → Distinct xs
Distinct-left [] ys d = tt
Distinct-left (x ∷ xs) ys d = ((All-split _ xs ys d.0).0, Distinct-left xs ys d.1)

pub Distinct-right : (xs ys : List ℕ) → Distinct (xs ++ ys) → Distinct ys
Distinct-right [] ys d = d
Distinct-right (x ∷ xs) ys d = Distinct-right xs ys d.1

pub Distinct-snoc : (a : ℕ) (xs : List ℕ) → Avoids a xs → Distinct xs → Distinct (xs ++ (a ∷ []))
Distinct-snoc a [] f d = (tt, tt)
Distinct-snoc a (x ∷ xs) f d =
    (All-append _ xs (a ∷ []) d.0 (flip a x f.0, tt), Distinct-snoc a xs f.1 d.1)

pub Distinct-without :
    (xs : List ℕ) (a : ℕ) (ys : List ℕ) → Distinct (xs ++ (a ∷ ys)) → Distinct (xs ++ ys)
Distinct-without [] a ys d = d.1
Distinct-without (x ∷ xs) a ys d =
    let parts = All-split _ xs (a ∷ ys) d.0 in
    (All-append _ xs ys parts.0 parts.1.1, Distinct-without xs a ys d.1)
