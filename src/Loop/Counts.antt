-- ===== src/Loop/Counts.antt =====
-- utils.h: loops over a directory that count, in a field or a variable, some of the entries.
use scsi_cli.Prelude.{
  Bool, List, [], arith, false, if◌then◌else◌, inl, inr, refl, true, ℕ, ℤ, ◌+◌, ◌∷◌, ◌≡◌, ◌⊎◌,
}
use scsi_cli.Loop.{Flow, for_each_dir_with, for_each_with, give, is_dot, next, stop}
use scsi_cli.World.{Dirent, M, pure}
use scsi_cli.World.Returns.{Returns, Returns-bind, Returns-map, Returns-pure}

-- The sum of the weights of the entries.
unfoldable pub total : (Dirent → ℕ) → List Dirent → ℕ
total weight [] = 0
total weight (e ∷ es) = weight e + total weight es

-- The weight where "." and ".." are passed over.
abbrev pub undotted : (Dirent → ℕ) → Dirent → ℕ
undotted weight e = if is_dot e.d_name then 0 else weight e

module _ {S : Type 0} (measure : S → ℕ) (may : Type 0) (failure : ℤ) where
  -- A round or a loop that started at `s`: it returned `failure`, where it may, or counted `n`.
  abbrev pub Counted : S → ℕ → Flow × S → Type 0
  Counted s n (flow, t) =
      (may × (flow ≡ give failure)) ⊎ ((flow ≡ next) × (measure t ≡ measure s + n))

  further :
      (s t : S) (a b : ℕ) (r : Flow × S)
      → measure t ≡ measure s + a
      → Counted t b r
      → Counted s (a + b) r
  further s t a b (flow, u) h (inl e) = inl e
  further s t a b (flow, u) h (inr (e, k)) = inr (e, omega (arith, h, k))

  module _ (body : S → Dirent → M (Flow × S)) where
    pub Returns-for_each_with :
        (weight : Dirent → ℕ)
        → ((t : S) (e : Dirent) → Returns (Counted t (weight e)) (body t e))
        → (es : List Dirent) (s : S)
        → Returns (Counted s (total weight es)) (for_each_with es s body)
    unfolding for_each_with total
    Returns-for_each_with weight h [] s = Returns-pure (next, s) (inr (refl, omega arith))
    Returns-for_each_with weight h (e ∷ es) s =
        Returns-bind (body s e) _ (h s e)
          (λ r q. go r.0 r.1 q (Returns-for_each_with weight h es r.1))
      where
        go :
            (flow : Flow) (t : S)
            → Counted s (weight e) (flow, t)
            → Returns (Counted t (total weight es)) (for_each_with es t body)
            → Returns (Counted s (weight e + total weight es)) (elim flow [
              | next ↦ for_each_with es t body
              | stop ↦ pure (next, t)
              | give v ↦ pure (give v, t)
            ])
        go next t (inl (p, q)) k = absurd (cc q)
        go next t (inr (q, m)) k = Returns-map (λ r. further s t (weight e) (total weight es) r m) k
        go stop t (inl (p, q)) k = absurd (cc q)
        go stop t (inr (q, m)) k = absurd (cc q)
        go (give v) t (inl (p, q)) k = Returns-pure (give v, t) (inl (p, q))
        go (give v) t (inr (q, m)) k = absurd (cc q)

  passed_over :
      (b : Bool) (n : ℕ) (t : S) {m : M (Flow × S)}
      → Returns (Counted t n) m
      → Returns (Counted t (if b then 0 else n)) (if b then pure (next, t) else m)
  passed_over true n t h = Returns-pure (next, t) (inr (refl, omega arith))
  passed_over false n t h = h

  pub Returns-for_each_dir_with :
      (body : S → Dirent → M (Flow × S)) (weight : Dirent → ℕ)
      → ((t : S) (e : Dirent) → Returns (Counted t (weight e)) (body t e))
      → (es : List Dirent) (s : S)
      → Returns (Counted s (total (undotted weight) es)) (for_each_dir_with es s body)
  unfolding for_each_dir_with
  Returns-for_each_dir_with body weight h es s =
      Returns-for_each_with _ (undotted weight)
        (λ t e. passed_over (is_dot e.d_name) (weight e) t (h t e)) es s
