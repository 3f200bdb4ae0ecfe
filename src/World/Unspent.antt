-- ===== src/World/Unspent.antt =====
-- Runs that end with as many structures left for malloc as they started with; a run that is undefined
-- has none to leave.
use scsi_cli.Prelude.{
  Bool, Option, String, Text, arith, false, if_null, if◌then◌else◌, none, refl, some, text, true, ℕ,
  ◌∙◌, ◌≡◌,
}
use scsi_cli.World.{
  Event, M, System, World, closedir, emit, free, lift, message, opendir, pure, say, undefined,
  ◌>>=◌, ◌>>◌,
}
use scsi_cli.World.Keeps.{Ends}

abbrev pub HasBudget : ℕ → World → Type 0
HasBudget n w = w.budget ≡ n

pub record Unspent {A : Type 0} (m : M A) : Type 0 where
  pub at : (w : World) → Ends (HasBudget w.budget) (m w)

Ends-at :
    {B : Type 0} (m n : ℕ) (o : Option (B × World))
    → m ≡ n
    → Ends (HasBudget m) o
    → Ends (HasBudget n) o
Ends-at m n none h k = tt
Ends-at m n (some (b, w)) h k = k ∙ h

module _ {A : Type 0} where
  pub Unspent-pure : (a : A) → Unspent (pure a)
  unfolding pure
  Unspent-pure a = record { at = λ w. refl }

  pub Unspent-undefined : Unspent (undefined {A = A})
  unfolding undefined
  Unspent-undefined = record { at = λ w. tt }

  pub Unspent-lift : (o : Option A) → Unspent (lift o)
  unfolding lift
  Unspent-lift none = record { at = λ w. tt }
  Unspent-lift (some a) = record { at = λ w. refl }

  pub Unspent-if : (b : Bool) {m n : M A} → Unspent m → Unspent n → Unspent (if b then m else n)
  Unspent-if true km kn = km
  Unspent-if false km kn = kn

module _ {A B : Type 0} where
  Ends-bind :
      (n : ℕ) (o : Option (A × World)) (f : A → M B)
      → Ends (HasBudget n) o
      → ((a : A) → Unspent (f a))
      → Ends (HasBudget n) (elim o [ none ↦ none | some (a, w') ↦ f a w' ])
  Ends-bind n none f h k = tt
  Ends-bind n (some (a, w')) f h k = Ends-at w'.budget n (f a w') h ((k a).at w')

  pub Unspent-bind :
      (m : M A) (f : A → M B) → Unspent m → ((a : A) → Unspent (f a)) → Unspent (m >>= f)
  unfolding ◌>>=◌
  Unspent-bind m f km kf = record { at = λ w. Ends-bind w.budget (m w) f (km.at w) kf }

  pub Unspent-option :
      (o : Option A) {m : M B} {f : A → M B}
      → Unspent m
      → ((a : A) → Unspent (f a))
      → Unspent (if_null o m f)
  Unspent-option none km kf = km
  Unspent-option (some a) km kf = kf a

pub Unspent-then :
    {B : Type 0} (m : M (Unit {0})) (k : M B) → Unspent m → Unspent k → Unspent (m >> k)
Unspent-then m k km kk = Unspent-bind m (λ _. k) km (λ _. kk)

pub Unspent-emit : (e : Event) → Unspent (emit e)
unfolding emit
Unspent-emit e = record { at = λ w. refl }

pub Unspent-say : (s : String) → Unspent (say s)
Unspent-say s = Unspent-emit (message (text s))

pub Unspent-opendir : (sys : System) (path : Text) → Unspent (opendir sys path)
unfolding opendir
Unspent-opendir sys path = record { at = λ w. ground arith }

pub Unspent-free : Unspent free
unfolding free
Unspent-free = record { at = λ w. refl }

pub Unspent-closedir : Unspent closedir
unfolding closedir
Unspent-closedir = record { at = λ w. refl }

pub ruleset unspent_rules = (
  Unspent-pure, Unspent-undefined, Unspent-lift, Unspent-if, Unspent-bind, Unspent-then,
  Unspent-say, Unspent-option, Unspent-emit, Unspent-opendir, Unspent-closedir, Unspent-free,
)
