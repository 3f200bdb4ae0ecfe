-- ===== src/World/Fails.antt =====
-- Runs that reach undefined behaviour, as long as some number of calls of malloc succeed.
use scsi_cli.Prelude.{
  List, Option, Text, ap, arith, if_null, none, refl, some, subst, sym, ℕ, ◌+◌, ◌≡◌, ◌≤◌,
}
use scsi_cli.World.{M, World, lift, pure, undefined, ◌>>=◌}
use scsi_cli.World.Completes.{Completes, Done}

pub record Fails {A : Type 0} (n : ℕ) (m : M A) : Type 0 where
  pub undefined_from : (w : World) → n ≤ w.budget → m w ≡ none

module _ {A B : Type 0} where
  -- The first of two runs.
  pub Fails-first : {n : ℕ} (first : M B) (f : B → M A) → Fails n first → Fails n (first >>= f)
  unfolding ◌>>=◌
  Fails-first first f h = record {
    undefined_from =
        λ w b. ap (λ o. elim o [ none ↦ none | some (a, w') ↦ f a w' ]) (h.undefined_from w b);
  }

  second :
      {Q : B → Type 0} (m n : ℕ) (xs : List Text) (w : World) (o : Option (B × World)) (f : B → M A)
      → m + n ≤ w.budget
      → Done m xs Q w o
      → ((b : B) → Q b → Fails n (f b))
      → elim o as (λ x. Option (A × World)) [ none ↦ none | some (b, w') ↦ f b w' ] ≡ none
  second m n xs w none f h d k = refl
  second m n xs w (some (b, v)) f h d k = (k b d.0).undefined_from v (omega (arith, h, d.1.0))

  -- The second.
  pub Fails-after :
      {Q : B → Type 0} {m n : ℕ} {xs : List Text} (first : M B) (f : B → M A)
      → Completes m xs Q first
      → ((b : B) → Q b → Fails n (f b))
      → Fails (m + n) (first >>= f)
  unfolding ◌>>=◌
  Fails-after {m = m} {n} {xs} first f h k = record {
    undefined_from = λ w b. second m n xs w (first w) f b (h.at w (omega (arith, b))) k;
  }

  -- A pointer that is not null.
  pub Fails-found :
      {n : ℕ} (o : Option B) (b : B) (m : M A) (f : B → M A)
      → o ≡ some b
      → Fails n (f b)
      → Fails n (if_null o m f)
  Fails-found none b m f e h = absurd (cc e)
  Fails-found {n} (some a) b m f e h = subst (λ c. Fails n (f c)) (sym (cc e)) h

pub Fails-lift : {A : Type 0} (o : Option A) → o ≡ none → Fails 0 (lift o)
unfolding lift
Fails-lift none e = record { undefined_from = λ w b. refl }
Fails-lift (some a) e = absurd (cc e)

pub Fails-within : {A : Type 0} (n k : ℕ) (m : M A) → n ≤ k → Fails n m → Fails k m
Fails-within n k m less h = record {
  undefined_from = λ w b. h.undefined_from w (omega (arith, less, b));
}

-- Whatever a value is, and also where there is none.
pub Fails-through :
    {A B : Type 0} {n : ℕ} (o : Option B) (f : B → M A)
    → ((b : B) → Fails n (f b))
    → Fails n (lift o >>= f)
unfolding lift ◌>>=◌
Fails-through none f h = record { undefined_from = λ w b. refl }
Fails-through (some a) f h = record { undefined_from = λ w b. (h a).undefined_from w b }

pub Fails-undefined : {A : Type 0} → Fails 0 (undefined {A = A})
unfolding undefined
Fails-undefined = record { undefined_from = λ w b. refl }

pub Fails-pure :
    {A B : Type 0} {n : ℕ} (b : B) (f : B → M A) → Fails n (f b) → Fails n (pure b >>= f)
unfolding pure ◌>>=◌
Fails-pure b f h = record { undefined_from = λ w m. h.undefined_from w m }
