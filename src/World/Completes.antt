-- ===== src/World/Completes.antt =====
-- Runs that are defined: how many structures they may need, and the disks whose rows they print. One
-- rule for each way to build a run.
use scsi_cli.Prelude.{
  Bool, List, Option, Text, [], ap, append_assoc, append_nil, arith, false, if_null, if◌then◌else◌,
  none, refl, some, subst, suc, sym, true, zero, ℕ, ◌++◌, ◌+◌, ◌∙◌, ◌∷◌, ◌≡◌, ◌≤◌,
}
use scsi_cli.Device.{Shown, disk_info, generic_disk_info, mpath_disk_info, nvme_disk_info}
use scsi_cli.World.{
  Dirent, Event, M, System, World, closedir, emit, free, label, lift, malloc, message, opendir,
  pure, shown, ◌>>=◌,
}

-- The disk that a row is about.
abbrev pub row_of : Shown → List Text
row_of (disk_info d) = if_null d.disk_name [] (λ name. name ∷ [])
row_of (nvme_disk_info d) = if_null d.disk_name [] (λ name. name ∷ [])
row_of (generic_disk_info d) = if_null d.disk_name [] (λ name. name ∷ [])
row_of (mpath_disk_info d) = if_null d.disk_name [] (λ name. name ∷ [])
row_of _ = []

abbrev pub event_row : Event → List Text
event_row (message s) = []
event_row (label s) = []
event_row (shown x) = row_of x

-- The disks of the rows, the first one printed first.
abbrev pub printed_rows : List Event → List Text
printed_rows [] = []
printed_rows (e ∷ out) = printed_rows out ++ event_row e

-- From `w`, a value with `P`, having taken at most `n` of the structures that are left and printed
-- rows for the disks `names`.
abbrev pub Done : {A : Type 0} → ℕ → List Text → (A → Type 0) → World → Option (A × World) → Type 0
Done n names P w none = ⊥
Done n names P w (some (a, w')) =
    P a × ((w.budget ≤ w'.budget + n) × (printed_rows w'.out ≡ printed_rows w.out ++ names))

pub record Completes {A : Type 0} (n : ℕ) (names : List Text) (P : A → Type 0) (m : M A)
    : Type 0 where
  pub at : (w : World) → n ≤ w.budget → Done n names P w (m w)

Done-after :
    {A : Type 0} (P : A → Type 0) (m n : ℕ) (xs ys : List Text) (u v : World)
    (o : Option (A × World))
    → u.budget ≤ v.budget + m
    → printed_rows v.out ≡ printed_rows u.out ++ xs
    → Done n ys P v o
    → Done (m + n) (xs ++ ys) P u o
Done-after P m n xs ys u v none b e d = d
Done-after P m n xs ys u v (some (a, w)) b e d = (
  d.0,
  (omega (arith, b, d.1.0), d.1.1 ∙ ap (λ r. r ++ ys) e ∙ append_assoc (printed_rows u.out) xs ys),
)

module _ {A : Type 0} {P : A → Type 0} where
  pub Completes-pure : (a : A) → P a → Completes 0 [] P (pure a)
  unfolding pure
  Completes-pure a p = record {
    at = λ w h. (p, (omega arith, sym (append_nil (printed_rows w.out))));
  }

  pub Completes-lift : (o : Option A) → if_null o ⊥ P → Completes 0 [] P (lift o)
  unfolding lift
  Completes-lift none p = absurd p
  Completes-lift (some a) p = record {
    at = λ w h. (p, (omega arith, sym (append_nil (printed_rows w.out))));
  }

  module _ {B : Type 0} {Q : B → Type 0} where
    Done-bind :
        (m n : ℕ) (xs ys : List Text) (w : World) (o : Option (B × World)) (f : B → M A)
        → m + n ≤ w.budget
        → Done m xs Q w o
        → ((b : B) → Q b → Completes n ys P (f b))
        → Done (m + n) (xs ++ ys) P w (elim o [ none ↦ none | some (b, w') ↦ f b w' ])
    Done-bind m n xs ys w none f h d k = d
    Done-bind m n xs ys w (some (b, v)) f h d k =
        Done-after P m n xs ys w v (f b v) d.1.0 d.1.1 ((k b d.0).at v (omega (arith, h, d.1.0)))

    pub Completes-bind :
        {m n : ℕ} {xs ys : List Text} (first : M B) (f : B → M A)
        → Completes m xs Q first
        → ((b : B) → Q b → Completes n ys P (f b))
        → Completes (m + n) (xs ++ ys) P (first >>= f)
    unfolding ◌>>=◌
    Completes-bind {m} {n} {xs} {ys} first f h k = record {
      at = λ w b. Done-bind m n xs ys w (first w) f b (h.at w (omega (arith, b))) k;
    }

pub Completes-emit : (e : Event) → Completes 0 (event_row e) (λ _. Unit {0}) (emit e)
unfolding emit
Completes-emit e = record { at = λ w h. (tt, (omega arith, refl)) }

pub Completes-closedir : Completes 0 [] (λ _. Unit {0}) closedir
unfolding closedir
Completes-closedir = record {
  at = λ w h. (tt, (omega arith, sym (append_nil (printed_rows w.out))));
}

pub Completes-free : Completes 0 [] (λ _. Unit {0}) free
unfolding free
Completes-free = record { at = λ w h. (tt, (omega arith, sym (append_nil (printed_rows w.out)))) }

pub Completes-malloc : Completes 1 [] (λ got. got ≡ true) malloc
unfolding malloc
Completes-malloc = record { at = λ w h. taken w.budget w refl h }
  where
    taken :
        (n : ℕ) (w : World)
        → w.budget ≡ n
        → 1 ≤ n
        → Done 1 []
            (λ got. got ≡ true)
            w
            (elim n [
              | zero ↦ some (false, w)
              | suc n ↦ some (true, record w { budget = n; live = w.live + 1 })
            ])
    taken zero w e h = absurd (omega (arith, h))
    taken (suc n) w e h = (refl, (omega (arith, e), sym (append_nil (printed_rows w.out))))

pub Completes-opendir :
    (sys : System) (path : Text)
    → Completes 0 [] (λ dir. dir ≡ sys.directory path) (opendir sys path)
unfolding opendir
Completes-opendir sys path = record { at = λ w h. answer (sys.directory path) w }
  where
    answer :
        (o : Option (List Dirent)) (w : World)
        → Done 0 []
            (λ dir. dir ≡ o)
            w
            (elim o [
              | none ↦ some (none, w)
              | some entries ↦ some (some entries, record w { streams = w.streams + 1 })
            ])
    answer none w = (refl, (omega arith, sym (append_nil (printed_rows w.out))))
    answer (some entries) w = (refl, (omega arith, sym (append_nil (printed_rows w.out))))

pub Completes-if :
    {A : Type 0} {P : A → Type 0} {n : ℕ} {xs : List Text} (b : Bool) {m k : M A}
    → Completes n xs P m
    → Completes n xs P k
    → Completes n xs P (if b then m else k)
Completes-if true hm hk = hm
Completes-if false hm hk = hk

-- A pointer that is not null.
pub Completes-found :
    {A B : Type 0} {P : A → Type 0} {n : ℕ} {xs : List Text} (o : Option B) (b : B) (m : M A)
    (f : B → M A)
    → o ≡ some b
    → Completes n xs P (f b)
    → Completes n xs P (if_null o m f)
Completes-found none b m f e h = absurd (cc e)
Completes-found {P = P} {n} {xs} (some a) b m f e h =
    subst (λ c. Completes n xs P (f c)) (sym (cc e)) h

-- A larger bound.
pub Completes-within :
    {A : Type 0} {P : A → Type 0} {n : ℕ} {xs : List Text} (k : ℕ) (ys : List Text) {m : M A}
    → n ≤ k
    → xs ≡ ys
    → Completes n xs P m
    → Completes k ys P m
Completes-within {P = P} {n} {xs} k ys {m} less e h = record {
  at = λ w b. wider w (m w) (h.at w (omega (arith, less, b)));
}
  where
    wider : (w : World) (o : Option (_ × World)) → Done n xs P w o → Done k ys P w o
    wider w none d = d
    wider w (some (a, v)) d =
        (d.0, (omega (arith, less, d.1.0), d.1.1 ∙ ap (λ r. printed_rows w.out ++ r) e))

-- A first run whose value is known.
pub Completes-known :
    {A B : Type 0} {P : A → Type 0} {m n : ℕ} {xs ys : List Text} (first : M B) (f : B → M A)
    (b : B)
    → Completes m xs (λ a. a ≡ b) first
    → Completes n ys P (f b)
    → Completes (m + n) (xs ++ ys) P (first >>= f)
Completes-known {P = P} {n = n} {ys = ys} first f b h k =
    Completes-bind first f h (λ a q. subst (λ c. Completes n ys P (f c)) (sym q) k)
