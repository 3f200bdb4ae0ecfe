-- ===== src/Loop/Fails.antt =====
-- utils.h: a loop over a directory whose rounds go on to the next until one is undefined.
use scsi_cli.Prelude.{All, List, [], arith, false, refl, true, ℕ, ◌++◌, ◌+◌, ◌∷◌, ◌≡◌}
use scsi_cli.Loop.{Flow, for_each, for_each_dir_with, for_each_with, give, is_dot, next, stop}
use scsi_cli.World.{Dirent, M, pure}
use scsi_cli.World.Completes.{Completes-pure}
use scsi_cli.World.Fails.{Fails, Fails-after, Fails-first, Fails-pure, Fails-within}

pub Fails-for_each :
    (n : ℕ) (body : Dirent → M Flow) (us : List Dirent) (e : Dirent) (vs : List Dirent)
    → All (λ u. body u ≡ pure next) us
    → Fails n (body e)
    → Fails n (for_each (us ++ (e ∷ vs)) body)
unfolding for_each
Fails-for_each n body [] e vs h k = Fails-first (body e) _ k
Fails-for_each n body (u ∷ us) e vs h k = Fails-within (0 + n) n _ (omega arith) (
    Fails-after {xs = []} (body u) _ (rw h.0 (Completes-pure {P = λ flow. flow ≡ next} next refl))
      (λ flow q. go flow q (Fails-for_each n body us e vs h.1 k)))
  where
    go :
        (flow : Flow)
        → flow ≡ next
        → Fails n (for_each (us ++ (e ∷ vs)) body)
        → Fails n (elim flow [
          | next ↦ for_each (us ++ (e ∷ vs)) body
          | stop ↦ pure next
          | give r ↦ pure (give r)
        ])
    go next q h = h
    go stop q h = absurd (cc q)
    go (give r) q h = absurd (cc q)

-- The first entry but "." and "..", where the rounds change a state.
pub Fails-for_each_dir_with :
    {S : Type 0} (n : ℕ) (s : S) (body : S → Dirent → M (Flow × S)) (us : List Dirent) (e : Dirent)
    (vs : List Dirent)
    → All (λ u. is_dot u.d_name ≡ true) us
    → is_dot e.d_name ≡ false
    → Fails n (body s e)
    → Fails n (for_each_dir_with (us ++ (e ∷ vs)) s body)
unfolding for_each_dir_with for_each_with
Fails-for_each_dir_with n s body [] e vs h other k = Fails-first _ _ (rw other k)
Fails-for_each_dir_with n s body (u ∷ us) e vs h other k =
    rw h.0 (Fails-pure (next, s) _ (Fails-for_each_dir_with n s body us e vs h.1 other k))
