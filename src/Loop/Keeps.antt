-- ===== src/Loop/Keeps.antt =====
-- utils.h: the rule for a loop over a directory, for the structures in use and the files written.
use scsi_cli.Prelude.{List, [], ℤ, ◌∷◌}
use scsi_cli.Loop.{
  Flow, after, for_each, for_each_dir, for_each_dir_with, for_each_with, give, is_dot, next, stop,
}
use scsi_cli.World.{Dirent, M}
use scsi_cli.World.Keeps.{Keeps, Keeps-bind, Keeps-if, Keeps-pure, keeps_rules}

pub Keeps-Flow :
    {B : Type 0} (flow : Flow) {n s : M B} {g : ℤ → M B}
    → Keeps n
    → Keeps s
    → ((r : ℤ) → Keeps (g r))
    → Keeps (elim flow [ next ↦ n | stop ↦ s | give r ↦ g r ])
Keeps-Flow next kn ks kg = kn
Keeps-Flow stop kn ks kg = ks
Keeps-Flow (give r) kn ks kg = kg r

pub Keeps-after : (flow : Flow) {k : M ℤ} → Keeps k → Keeps (after flow k)
Keeps-after next h = h
Keeps-after stop h = h
Keeps-after (give r) h = Keeps-pure r

pub Keeps-for_each :
    (es : List Dirent) (body : Dirent → M Flow)
    → ((e : Dirent) → Keeps (body e))
    → Keeps (for_each es body)
unfolding for_each
Keeps-for_each [] body h = Keeps-pure next
Keeps-for_each (e ∷ es) body h = Keeps-bind _ _ (h e) (λ flow.
    Keeps-Flow flow (Keeps-for_each es body h) (Keeps-pure next) (λ r. Keeps-pure (give r)))

pub Keeps-for_each_dir :
    (es : List Dirent) (body : Dirent → M Flow)
    → ((e : Dirent) → Keeps (body e))
    → Keeps (for_each_dir es body)
unfolding for_each_dir
Keeps-for_each_dir es body h =
    Keeps-for_each es _ (λ e. Keeps-if (is_dot e.d_name) (Keeps-pure next) (h e))

pub Keeps-for_each_with :
    {S : Type 0} (es : List Dirent) (s : S) (body : S → Dirent → M (Flow × S))
    → ((t : S) (e : Dirent) → Keeps (body t e))
    → Keeps (for_each_with es s body)
unfolding for_each_with
Keeps-for_each_with [] s body h = Keeps-pure (next, s)
Keeps-for_each_with (e ∷ es) s body h = Keeps-bind _ _ (h s e) (λ r.
    Keeps-Flow r.0 (Keeps-for_each_with es r.1 body h) (Keeps-pure (next, r.1))
      (λ v. Keeps-pure (give v, r.1)))

pub Keeps-for_each_dir_with :
    {S : Type 0} (es : List Dirent) (s : S) (body : S → Dirent → M (Flow × S))
    → ((t : S) (e : Dirent) → Keeps (body t e))
    → Keeps (for_each_dir_with es s body)
unfolding for_each_dir_with
Keeps-for_each_dir_with es s body h =
    Keeps-for_each_with es s _ (λ t e. Keeps-if (is_dot e.d_name) (Keeps-pure (next, t)) (h t e))

pub ruleset loop_rules = (
  keeps_rules, Keeps-after, Keeps-for_each, Keeps-for_each_dir, Keeps-for_each_with,
  Keeps-for_each_dir_with,
)
