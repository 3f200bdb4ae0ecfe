-- ===== src/World/Frees.antt =====
-- Runs between the allocation of one structure and its release: they end with one structure fewer in
-- use, and write no file.
use scsi_cli.Prelude.{
  Bool, Option, arith, false, if_null, if◌then◌else◌, none, not, refl, some, suc, true, zero, ℕ,
  ◌+◌, ◌-◌, ◌<◌, ◌∙◌, ◌≡◌,
}
use scsi_cli.World.{M, World, free, malloc, pure, undefined, ◌>>=◌, ◌>>◌}
use scsi_cli.World.Keeps.{Ends, IsSame, Keeps}

-- One structure fewer is in use, and the files written are the same.
pub record IsFreed (w w' : World) : Type 0 where
  pub one_fewer : w'.live + 1 ≡ w.live
  pub freed_written : w'.written ≡ w.written

pub record Frees {A : Type 0} (m : M A) : Type 0 where
  pub from : (w : World) → 0 < w.live → Ends (IsFreed w) (m w)

IsFreed-Ends :
    {B : Type 0} {u v : World} (o : Option (B × World))
    → IsSame u v
    → Ends (IsFreed v) o
    → Ends (IsFreed u) o
IsFreed-Ends none h k = tt
IsFreed-Ends (some (b, w)) h k = record {
  one_fewer = omega (arith, k.one_fewer, h.same_live);
  freed_written = k.freed_written ∙ h.same_written;
}

Ends-IsFreed :
    {B : Type 0} {u v : World} (o : Option (B × World))
    → IsFreed u v
    → Ends (IsSame v) o
    → Ends (IsFreed u) o
Ends-IsFreed none h k = tt
Ends-IsFreed (some (b, w)) h k = record {
  one_fewer = omega (arith, h.one_fewer, k.same_live);
  freed_written = k.same_written ∙ h.freed_written;
}

module _ {A B : Type 0} where
  step :
      (o : Option (A × World)) (u : World) (f : A → M B)
      → 0 < u.live
      → Ends (IsSame u) o
      → ((a : A) → Frees (f a))
      → Ends (IsFreed u) (elim o [ none ↦ none | some (a, w') ↦ f a w' ])
  step none u f p h k = tt
  step (some (a, w')) u f p h k =
      IsFreed-Ends (f a w') h ((k a).from w' (omega (arith, h.same_live)))

  pub Frees-bind : (m : M A) (f : A → M B) → Keeps m → ((a : A) → Frees (f a)) → Frees (m >>= f)
  unfolding ◌>>=◌
  Frees-bind m f km kf = record { from = λ w p. step (m w) w f p (km.at w) kf }

  pub Frees-null :
      (o : Option A) {m : M B} {f : A → M B}
      → Frees m
      → ((a : A) → Frees (f a))
      → Frees (if_null o m f)
  Frees-null none km kf = km
  Frees-null (some a) km kf = kf a

module _ {A : Type 0} where
  pub Frees-if : (b : Bool) {m n : M A} → Frees m → Frees n → Frees (if b then m else n)
  Frees-if true km kn = km
  Frees-if false km kn = kn

  pub Frees-then : (m : M (Unit {0})) (k : M A) → Keeps m → Frees k → Frees (m >> k)
  Frees-then m k km kk = Frees-bind m (λ _. k) km (λ _. kk)

  pub Frees-undefined : Frees (undefined {A = A})
  unfolding undefined
  Frees-undefined = record { from = λ w p. tt }

  pub Frees-free : (k : M A) → Keeps k → Frees (free >> k)
  unfolding ◌>>=◌ free
  Frees-free k kk = record {
    from = λ w p.
        let u : World = record w { live = w.live - 1 } in
        Ends-IsFreed {u = w} {v = u} (k u)
          (record { one_fewer = omega arith; freed_written = refl }) (kk.at u);
  }

  allocated :
      (w : World) (n : ℕ) (o : Option (A × World))
      → Ends (IsFreed (record w { budget = n; live = w.live + 1 })) o
      → Ends (IsSame w) o
  allocated w n none h = tt
  allocated w n (some (a, w')) h = record {
    same_live = omega (arith, h.one_fewer);
    same_written = h.freed_written;
  }

  -- An allocation that gives a fresh structure or a null pointer, and a run for either result.
  pub Keeps-malloc :
      {D : Type 0} (x : D) (f : Option D → M A)
      → Keeps (f none)
      → Frees (f (some x))
      → Keeps ((malloc >>= λ got. pure (if got then some x else none)) >>= f)
  unfolding ◌>>=◌ malloc
  Keeps-malloc x f kn ks = record { at = λ w. split w w.budget refl }
    where
      split :
          (w : World) (n : ℕ)
          → w.budget ≡ n
          → Ends (IsSame w) (((malloc >>= λ got. pure (if got then some x else none)) >>= f) w)
      split w zero e = rw e (kn.at (record w { budget = 0 }))
      split w (suc n) e = rw e (
          allocated (record w { budget = suc n }) n _
            (ks.from (record w { budget = n; live = w.live + 1 }) (omega arith)))

pub ruleset frees_rules =
    (Frees-bind, Frees-null, Frees-if, Frees-then, Frees-undefined, Frees-free)

module _ {A : Type 0} where
  -- An allocation that is tested, and the work with what it gave.
  pub Keeps-malloc_if :
      (failed work : M A)
      → Keeps failed
      → Frees work
      → Keeps (malloc >>= λ got. if not got then failed else work)
  unfolding ◌>>=◌ malloc
  Keeps-malloc_if failed work kf kw = record { at = λ w. split w w.budget refl }
    where
      split :
          (w : World) (n : ℕ)
          → w.budget ≡ n
          → Ends (IsSame w) ((malloc >>= λ got. if not got then failed else work) w)
      split w zero e = rw e (kf.at (record w { budget = 0 }))
      split w (suc n) e = rw e (
          allocated (record w { budget = suc n }) n _
            (kw.from (record w { budget = n; live = w.live + 1 }) (omega arith)))
