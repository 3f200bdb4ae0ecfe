-- ===== src/World/Returns.antt =====
-- A property of every value that a run gives, whatever the state is.
use scsi_cli.Prelude.{
  Bool, List, Option, Text, false, if_null, if◌then◌else◌, none, refl, some, true, ◌+◌, ◌≡◌,
}
use scsi_cli.World.{Dirent, M, System, World, lift, opendir, pure, ◌>>=◌}

abbrev pub Gives : {A : Type 0} → (A → Type 0) → Option (A × World) → Type 0
Gives P none = Unit
Gives P (some (a, w')) = P a

pub record Returns {A : Type 0} (P : A → Type 0) (m : M A) : Type 0 where
  pub value : (w : World) → Gives P (m w)

module _ {A : Type 0} {P : A → Type 0} where
  pub Returns-pure : (a : A) → P a → Returns P (pure a)
  unfolding pure
  Returns-pure a p = record { value = λ w. p }

  Gives-map :
      {Q : A → Type 0} (o : Option (A × World)) → ((a : A) → P a → Q a) → Gives P o → Gives Q o
  Gives-map none f h = tt
  Gives-map (some (a, w)) f h = f a h

  pub Returns-map : {Q : A → Type 0} {m : M A} → ((a : A) → P a → Q a) → Returns P m → Returns Q m
  Returns-map {m = m} f h = record { value = λ w. Gives-map (m w) f (h.value w) }

  pub Returns-if :
      (b : Bool) {m n : M A} → Returns P m → Returns P n → Returns P (if b then m else n)
  Returns-if true hm hn = hm
  Returns-if false hm hn = hn

  pub Returns-option :
      {B : Type 0} (o : Option B) {m : M A} {f : B → M A}
      → Returns P m
      → ((b : B) → Returns P (f b))
      → Returns P (if_null o m f)
  Returns-option none hm hf = hm
  Returns-option (some b) hm hf = hf b

  module _ {B : Type 0} where
    Gives-bind :
        (o : Option (B × World)) (f : B → M A)
        → ((b : B) → Returns P (f b))
        → Gives P (elim o [ none ↦ none | some (b, w') ↦ f b w' ])
    Gives-bind none f h = tt
    Gives-bind (some (b, w')) f h = (h b).value w'

    pub Returns-any : (m : M B) (f : B → M A) → ((b : B) → Returns P (f b)) → Returns P (m >>= f)
    unfolding ◌>>=◌
    Returns-any m f h = record { value = λ w. Gives-bind (m w) f h }

  module _ {B : Type 0} {Q : B → Type 0} where
    Gives-step :
        (o : Option (B × World)) (f : B → M A)
        → Gives Q o
        → ((b : B) → Q b → Returns P (f b))
        → Gives P (elim o [ none ↦ none | some (b, w') ↦ f b w' ])
    Gives-step none f q h = tt
    Gives-step (some (b, w')) f q h = (h b q).value w'

    pub Returns-bind :
        (m : M B) (f : B → M A)
        → Returns Q m
        → ((b : B) → Q b → Returns P (f b))
        → Returns P (m >>= f)
    unfolding ◌>>=◌
    Returns-bind m f hm h = record { value = λ w. Gives-step (m w) f (hm.value w) h }

pub Returns-lift : {A : Type 0} (o : Option A) → Returns (λ a. o ≡ some a) (lift o)
unfolding lift
Returns-lift none = record { value = λ w. tt }
Returns-lift (some a) = record { value = λ w. refl }

pub Returns-opendir :
    (sys : System) (path : Text) → Returns (λ dir. dir ≡ sys.directory path) (opendir sys path)
unfolding opendir
Returns-opendir sys path = record { value = λ w. answer (sys.directory path) w }
  where
    answer :
        (o : Option (List Dirent)) (w : World)
        → Gives
            (λ dir. dir ≡ o)
            (elim o [
              | none ↦ some (none, w)
              | some entries ↦ some (some entries, record w { streams = w.streams + 1 })
            ])
    answer none w = refl
    answer (some entries) w = refl
