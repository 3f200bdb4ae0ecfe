-- ===== src/World/Keeps.antt =====
-- What a run leaves as it was: the number of structures in use and the files written. One rule for
-- each way to build a run; a run that is undefined has nothing to keep.
use scsi_cli.Prelude.{
  Bool, Option, String, Text, arith, false, if_null, if◌then◌else◌, none, refl, some, text, true,
  ◌∙◌, ◌≡◌,
}
use scsi_cli.World.{
  Event, M, System, World, closedir, emit, lift, message, opendir, pure, say, undefined, ◌>>=◌,
  ◌>>◌,
}

abbrev pub Ends : {A : Type 0} → (World → Type 0) → Option (A × World) → Type 0
Ends P none = Unit
Ends P (some (a, w')) = P w'

pub record IsSame (w w' : World) : Type 0 where
  pub same_live : w'.live ≡ w.live
  pub same_written : w'.written ≡ w.written

pub IsSame-trans : {u v w : World} → IsSame u v → IsSame v w → IsSame u w
IsSame-trans h k = record {
  same_live = k.same_live ∙ h.same_live;
  same_written = k.same_written ∙ h.same_written;
}

pub record Keeps {A : Type 0} (m : M A) : Type 0 where
  pub at : (w : World) → Ends (IsSame w) (m w)

Ends-trans :
    {B : Type 0} {u v : World} (o : Option (B × World))
    → IsSame u v
    → Ends (IsSame v) o
    → Ends (IsSame u) o
Ends-trans none h k = tt
Ends-trans (some (b, w)) h k = IsSame-trans h k

module _ {A : Type 0} where
  pub Keeps-pure : (a : A) → Keeps (pure a)
  unfolding pure
  Keeps-pure a = record { at = λ w. record { same_live = refl; same_written = refl } }

  pub Keeps-undefined : Keeps (undefined {A = A})
  unfolding undefined
  Keeps-undefined = record { at = λ w. tt }

  pub Keeps-lift : (o : Option A) → Keeps (lift o)
  unfolding lift
  Keeps-lift none = record { at = λ w. tt }
  Keeps-lift (some a) = record { at = λ w. record { same_live = refl; same_written = refl } }

  pub Keeps-if : (b : Bool) {m n : M A} → Keeps m → Keeps n → Keeps (if b then m else n)
  Keeps-if true km kn = km
  Keeps-if false km kn = kn

module _ {A B : Type 0} where
  Ends-bind :
      (u : World) (o : Option (A × World)) (f : A → M B)
      → Ends (IsSame u) o
      → ((a : A) → Keeps (f a))
      → Ends (IsSame u) (elim o [ none ↦ none | some (a, w') ↦ f a w' ])
  Ends-bind u none f h k = tt
  Ends-bind u (some (a, w')) f h k = Ends-trans (f a w') h ((k a).at w')

  pub Keeps-bind : (m : M A) (f : A → M B) → Keeps m → ((a : A) → Keeps (f a)) → Keeps (m >>= f)
  unfolding ◌>>=◌
  Keeps-bind m f km kf = record { at = λ w. Ends-bind w (m w) f (km.at w) kf }

  pub Keeps-option :
      (o : Option A) {m : M B} {f : A → M B}
      → Keeps m
      → ((a : A) → Keeps (f a))
      → Keeps (if_null o m f)
  Keeps-option none km kf = km
  Keeps-option (some a) km kf = kf a

pub Keeps-then : {B : Type 0} (m : M (Unit {0})) (k : M B) → Keeps m → Keeps k → Keeps (m >> k)
Keeps-then m k km kk = Keeps-bind m (λ _. k) km (λ _. kk)

pub Keeps-emit : (e : Event) → Keeps (emit e)
unfolding emit
Keeps-emit e = record { at = λ w. record { same_live = refl; same_written = refl } }

pub Keeps-say : (s : String) → Keeps (say s)
Keeps-say s = Keeps-emit (message (text s))

pub Keeps-opendir : (sys : System) (path : Text) → Keeps (opendir sys path)
unfolding opendir
Keeps-opendir sys path = record { at = λ w. ground arith }

pub Keeps-closedir : Keeps closedir
unfolding closedir
Keeps-closedir = record { at = λ w. record { same_live = refl; same_written = refl } }

pub ruleset keeps_rules = (
  Keeps-pure, Keeps-undefined, Keeps-lift, Keeps-if, Keeps-bind, Keeps-then, Keeps-say,
  Keeps-option, Keeps-emit, Keeps-opendir, Keeps-closedir,
)
