-- ===== src/Fibre/HostLoop.antt =====
-- scsi_fcp_utils.c: a loop that takes one structure for each host and counts it.
use scsi_cli.Prelude.{
  Bool, Option, arith, enodev, false, if◌then◌else◌, inl, inr, none, refl, some, true, ℕ, ◌+◌, ◌<◌,
  ◌≡◌, ◌≤◌, ◌⊎◌,
}
use scsi_cli.Loop.{Flow, give, next, stop}
use scsi_cli.World.{M, World, pure, ◌>>=◌}

-- From `w` and the counter `count`: with a structure for each of `n` hosts, the next round follows with
-- all of them counted, and otherwise the function returns -ENODEV.
abbrev pub CountsHosts : ℕ → ℕ → World → Option ((Flow × ℕ) × World) → Type 0
CountsHosts n count w none = Unit
CountsHosts n count w (some ((flow, counted), w')) =
    ((n ≤ w.budget) × ((flow ≡ next) × ((counted ≡ count + n) × (w'.budget + n ≡ w.budget))))
    ⊎ ((w.budget < n) × (flow ≡ give enodev))

pub record HostLoop (n count : ℕ) (m : M (Flow × ℕ)) : Type 0 where
  pub at : (w : World) → CountsHosts n count w (m w)

pub HostLoop-pure : (count : ℕ) → HostLoop 0 count (pure (next, count))
unfolding pure
HostLoop-pure count = record { at = λ w. inl (omega arith, (refl, (omega arith, omega arith))) }

CountsHosts-after :
    (n k count counted : ℕ) (u v : World) (o : Option ((Flow × ℕ) × World))
    → n ≤ u.budget
    → counted ≡ count + n
    → v.budget + n ≡ u.budget
    → CountsHosts k counted v o
    → CountsHosts (n + k) count u o
CountsHosts-after n k count counted u v none a b c h = tt
CountsHosts-after n k count counted u v (some ((flow, m), w)) a b c (inl (d, (e, (f, g)))) =
    inl (omega (arith, c, d), (e, (omega (arith, b, f), omega (arith, c, g))))
CountsHosts-after n k count counted u v (some ((flow, m), w)) a b c (inr (d, e)) =
    inr (omega (arith, c, d), e)

-- The rest of a loop after one round.
abbrev rest_of : (ℕ → M (Flow × ℕ)) → Flow × ℕ → M (Flow × ℕ)
rest_of f r = elim r.0 [ next ↦ f r.1 | stop ↦ pure (next, r.1) | give v ↦ pure (give v, r.1) ]

pub HostLoop-then :
    (n k count : ℕ) (m : M (Flow × ℕ)) (f : ℕ → M (Flow × ℕ))
    → HostLoop n count m
    → ((c : ℕ) → HostLoop k c (f c))
    → HostLoop (n + k) count (m >>= rest_of f)
unfolding ◌>>=◌ pure
HostLoop-then n k count m f hm hf = record { at = λ w. continued w (m w) (hm.at w) }
  where
    continued :
        (w : World) (o : Option ((Flow × ℕ) × World))
        → CountsHosts n count w o
        → CountsHosts (n + k) count w (elim o [ none ↦ none | some (r, v) ↦ rest_of f r v ])
    continued w none h = tt
    continued w (some ((next, c), v)) (inl (a, (q, (b, d)))) =
        CountsHosts-after n k count c w v (f c v) a b d ((hf c).at v)
    continued w (some ((stop, c), v)) (inl (a, (q, (b, d)))) = absurd (cc q)
    continued w (some ((give x, c), v)) (inl (a, (q, (b, d)))) = absurd (cc q)
    continued w (some ((next, c), v)) (inr (a, q)) = absurd (cc q)
    continued w (some ((stop, c), v)) (inr (a, q)) = absurd (cc q)
    continued w (some ((give x, c), v)) (inr (a, q)) = inr (omega (arith, a), q)

pub HostLoop-if :
    (b : Bool) (count : ℕ) {m : M (Flow × ℕ)}
    → HostLoop 1 count m
    → HostLoop (if b then 0 else 1) count (if b then pure (next, count) else m)
HostLoop-if true count h = HostLoop-pure count
HostLoop-if false count h = h
