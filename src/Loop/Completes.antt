-- ===== src/Loop/Completes.antt =====
-- utils.h: loops over a directory whose rounds are defined and go on to the next.
use scsi_cli.Prelude.{
  All, Bool, List, Text, [], false, if◌then◌else◌, refl, true, ℕ, ℤ, ◌++◌, ◌+◌, ◌∷◌, ◌≡◌,
}
use scsi_cli.Loop.{Flow, after, for_each, for_each_dir, give, is_dot, next, stop}
use scsi_cli.World.{Dirent, M, pure, ◌>>=◌}
use scsi_cli.World.Completes.{Completes, Completes-bind, Completes-pure}

-- What the rounds need and print together.
abbrev pub needed : (Dirent → Bool) → List Dirent → ℕ
needed test [] = 0
needed test (e ∷ es) = (if test e then 1 else 0) + needed test es

abbrev pub accepted : (Dirent → Bool) → List Dirent → List Text
accepted test [] = []
accepted test (e ∷ es) = (if test e then e.d_name ∷ [] else []) ++ accepted test es

-- A round that takes a structure and prints a row where the entry passes the test.
abbrev pub IsRound : (Dirent → Bool) → (Dirent → M Flow) → Dirent → Type 0
IsRound test body e =
    Completes (if test e then 1 else 0) (if test e then e.d_name ∷ [] else []) (λ flow. flow ≡ next)
      (body e)

module _ (test : Dirent → Bool) (body : Dirent → M Flow) where
  pub Completes-for_each :
      (es : List Dirent)
      → All (IsRound test body) es
      → Completes (needed test es) (accepted test es) (λ flow. flow ≡ next) (for_each es body)
  unfolding for_each
  Completes-for_each [] h = Completes-pure next refl
  Completes-for_each (e ∷ es) h =
      Completes-bind (body e) _ h.0 (λ flow q. go flow q (Completes-for_each es h.1))
    where
      go :
          (flow : Flow)
          → flow ≡ next
          → Completes (needed test es) (accepted test es) (λ f. f ≡ next) (for_each es body)
          → Completes
              (needed test es)
              (accepted test es)
              (λ f. f ≡ next)
              (elim flow [ next ↦ for_each es body | stop ↦ pure next | give r ↦ pure (give r) ])
      go next q h = h
      go stop q h = absurd (cc q)
      go (give r) q h = absurd (cc q)

-- The loop that passes over "." and "..", which the test does not accept.
pub Completes-for_each_dir :
    (test : Text → Bool) (body : Dirent → M Flow) (es : List Dirent)
    → ((name : Text) → is_dot name ≡ true → test name ≡ false)
    → All (IsRound (λ e. test e.d_name) body) es
    → Completes
        (needed (λ e. test e.d_name) es)
        (accepted (λ e. test e.d_name) es)
        (λ flow. flow ≡ next)
        (for_each_dir es body)
unfolding for_each_dir
Completes-for_each_dir test body es dots h =
    Completes-for_each (λ e. test e.d_name) _ es (rounds es h)
  where
    round :
        (b c : Bool) (name : Text) {m : M Flow}
        → (b ≡ true → c ≡ false)
        → Completes (if c then 1 else 0) (if c then name ∷ [] else []) (λ flow. flow ≡ next) m
        → Completes
            (if c then 1 else 0)
            (if c then name ∷ [] else [])
            (λ flow. flow ≡ next)
            (if b then pure next else m)
    round true c name f h = rw (f refl) (Completes-pure next refl)
    round false c name f h = h

    rounds :
        (es : List Dirent)
        → All (IsRound (λ e. test e.d_name) body) es
        → All (IsRound (λ e. test e.d_name) (λ e. if is_dot e.d_name then pure next else body e)) es
    rounds [] h = tt
    rounds (e ∷ es) h =
        (round (is_dot e.d_name) (test e.d_name) e.d_name (dots e.d_name) h.0, rounds es h.1)

-- The rest of a function after a loop that ends.
pub Completes-after :
    {P : ℤ → Type 0} {m n : ℕ} {xs ys : List Text} (loop : M Flow) (rest : M ℤ)
    → Completes m xs (λ flow. flow ≡ next) loop
    → Completes n ys P rest
    → Completes (m + n) (xs ++ ys) P (loop >>= λ flow. after flow rest)
Completes-after {P} {m} {n} {xs} {ys} loop rest h k = Completes-bind loop _ h go
  where
    go : (flow : Flow) → flow ≡ next → Completes n ys P (after flow rest)
    go next q = k
    go stop q = absurd (cc q)
    go (give r) q = absurd (cc q)
