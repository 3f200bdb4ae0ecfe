-- ===== src/World/Runs.antt =====
-- A run whose first part is known.
use scsi_cli.Prelude.{List, Option, Text, ap, none, some, ◌+◌, ◌≡◌}
use scsi_cli.World.{Dirent, M, System, World, opendir, ◌>>=◌}

pub after_run :
    {A B : Type 0} (m : M B) (f : B → M A) (w w' : World) (b : B)
    → m w ≡ some (b, w')
    → (m >>= f) w ≡ f b w'
unfolding ◌>>=◌
after_run m f w w' b h = ap (λ o. elim o [ none ↦ none | some (a, v) ↦ f a v ]) h

pub after_opendir :
    {B : Type 0} (sys : System) (path : Text) (w : World) {entries : List Dirent}
    (f : Option (List Dirent) → M B)
    → sys.directory path ≡ some entries
    → (opendir sys path >>= f) w ≡ f (some entries) (record w { streams = w.streams + 1 })
unfolding opendir ◌>>=◌
after_opendir sys path w f h =
    ap
      (λ o.
        elim (elim o as (λ x. Option (Option (List Dirent) × World)) [
          | none ↦ some (none, w)
          | some entries ↦ some (some entries, record w { streams = w.streams + 1 })
        ]) [ none ↦ none | some (a, w') ↦ f a w' ])
      h
