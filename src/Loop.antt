-- ===== src/Loop.antt =====
-- utils.h: the loops over a directory, with `break` and `return` in their bodies.
pub mod Keeps
pub mod Counts
pub mod Completes
pub mod Fails
use scsi_cli.Prelude.{Bool, List, Text, [], if◌then◌else◌, text, ℤ, ◌||◌, ◌∷◌}
use scsi_cli.Clib.Compare.{strcmp_eq}
use scsi_cli.World.{Dirent, M, pure, ◌>>=◌, ◌>>◌}

-- How a round of a loop ends: with the next round, with `break`, or with `return` of a value.
pub data Flow : Type 0 where
  next : Flow
  stop : Flow
  give : ℤ → Flow

-- for (entry = readdir(dir); entry; entry = readdir(dir)). The result is `give r` if the body returned r.
unfoldable pub for_each : List Dirent → (Dirent → M Flow) → M Flow
for_each [] body = pure next
for_each (e ∷ es) body = body e >>= λ flow. elim flow [
  | next ↦ for_each es body
  | stop ↦ pure next
  | give r ↦ pure (give r)
]

abbrev pub is_dot : Text → Bool
is_dot s = strcmp_eq s (text ".") || strcmp_eq s (text "..")

-- for_each_dir
unfoldable pub for_each_dir : List Dirent → (Dirent → M Flow) → M Flow
unfolding for_each
for_each_dir es body = for_each es (λ e. if is_dot e.d_name then pure next else body e)

-- What follows a loop: the rest of the function, unless the body returned.
abbrev pub after : Flow → M ℤ → M ℤ
after next k = k
after stop k = k
after (give r) k = pure r

-- The loops over a state that the rounds change.
unfoldable pub for_each_with :
    {S : Type 0} → List Dirent → S → (S → Dirent → M (Flow × S)) → M (Flow × S)
for_each_with [] s body = pure (next, s)
for_each_with (e ∷ es) s body = body s e >>= λ r. elim r.0 [
  | next ↦ for_each_with es r.1 body
  | stop ↦ pure (next, r.1)
  | give v ↦ pure (give v, r.1)
]

unfoldable pub for_each_dir_with :
    {S : Type 0} → List Dirent → S → (S → Dirent → M (Flow × S)) → M (Flow × S)
unfolding for_each_with
for_each_dir_with es s body =
    for_each_with es s (λ t e. if is_dot e.d_name then pure (next, t) else body t e)
