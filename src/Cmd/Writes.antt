-- ===== src/Cmd/Writes.antt =====
-- scsi_test.c and scsi_trigger.c: what a reset writes.
use scsi_cli.Prelude.{
  ==_iff, Bool, Bool-cases, List, Option, Text, [], false, if◌then◌else◌, inl, inr, none, refl,
  some, text, true, ◌++◌, ◌==◌, ◌∙◌, ◌∷◌, ◌≡◌, ◌⊎◌,
}
use scsi_cli.Clib.Compare.{strncmp_eq}
use scsi_cli.Clib.Printf.{truncated}
use scsi_cli.Cmd.Reset.{cmd_reset, reset_device}
use scsi_cli.Trigger.{announce, fc_hba_reset, reset_path}
use scsi_cli.World.{M, System, World, lift, write_file, ◌>>=◌}
use scsi_cli.World.Keeps.{Ends, IsSame, Keeps, keeps_rules}

-- the attribute that a reset of the host writes to
abbrev pub adapter_reset_path : Text → Text
adapter_reset_path host =
    truncated 1024 (text "/sys/class/fc_host/" ++ (host ++ text "/device/reset"))

-- From one state to a later one nothing was written, or one reset of the host.
abbrev pub WritesReset : Text → World → World → Type 0
WritesReset host w w' =
    (w'.written ≡ w.written) ⊎ (w'.written ≡ (adapter_reset_path host, text "1") ∷ w.written)

record Resets {A : Type 0} (host : Text) (m : M A) : Type 0 where
  run : (w : World) → Ends (WritesReset host w) (m w)

module _ {A : Type 0} (host : Text) (u v : World) where
  before :
      (o : Option (A × World))
      → IsSame u v
      → Ends (WritesReset host v) o
      → Ends (WritesReset host u) o
  before none h k = tt
  before (some (a, w)) h (inl k) = inl (k ∙ h.same_written)
  before (some (a, w)) h (inr k) = inr (rw⁻¹ h.same_written k)

  then_same :
      (o : Option (A × World))
      → WritesReset host u v
      → Ends (IsSame v) o
      → Ends (WritesReset host u) o
  then_same none h k = tt
  then_same (some (a, w)) (inl h) k = inl (k.same_written ∙ h)
  then_same (some (a, w)) (inr h) k = inr (k.same_written ∙ h)

module _ {A : Type 0} (host : Text) where
  same : (w : World) (o : Option (A × World)) → Ends (IsSame w) o → Ends (WritesReset host w) o
  same w none h = tt
  same w (some (a, w')) h = inl h.same_written

  Resets-Keeps : (m : M A) → Keeps m → Resets host m
  Resets-Keeps m h = record { run = λ w. same w (m w) (h.at w) }

  Resets-if :
      (b : Bool) {m n : M A} → Resets host m → Resets host n → Resets host (if b then m else n)
  Resets-if true hm hn = hm
  Resets-if false hm hn = hn

  Resets-true :
      (b : Bool) {m : M A} (n : M A) → b ≡ true → Resets host m → Resets host (if b then m else n)
  Resets-true true n e hm = hm
  Resets-true false n e hm = absurd (cc e)

module _ {A B : Type 0} (host : Text) where
  from_bind :
      (u : World) (o : Option (A × World)) (f : A → M B)
      → Ends (IsSame u) o
      → ((a : A) → Resets host (f a))
      → Ends (WritesReset host u) (elim o [ none ↦ none | some (a, w') ↦ f a w' ])
  from_bind u none f h k = tt
  from_bind u (some (a, w')) f h k = before host u w' (f a w') h ((k a).run w')

  from_end :
      (u : World) (o : Option (A × World)) (f : A → M B)
      → Ends (WritesReset host u) o
      → ((a : A) → Keeps (f a))
      → Ends (WritesReset host u) (elim o [ none ↦ none | some (a, w') ↦ f a w' ])
  from_end u none f h k = tt
  from_end u (some (a, w')) f h k = then_same host u w' (f a w') h ((k a).at w')

  Resets-bind :
      (m : M A) (f : A → M B) → Keeps m → ((a : A) → Resets host (f a)) → Resets host (m >>= f)
  unfolding ◌>>=◌
  Resets-bind m f hm hf = record { run = λ w. from_bind w (m w) f (hm.at w) hf }

  Resets-lift : (a : A) (f : A → M B) → Resets host (f a) → Resets host (lift (some a) >>= f)
  unfolding ◌>>=◌
  Resets-lift a f h = record { run = h.run }

  Resets-end :
      (m : M A) (f : A → M B) → Resets host m → ((a : A) → Keeps (f a)) → Resets host (m >>= f)
  unfolding ◌>>=◌
  Resets-end m f hm hf = record { run = λ w. from_end w (m w) f (hm.run w) hf }

module _ (sys : System) (host : Text) where
  Resets-write : Resets host (write_file sys (adapter_reset_path host) (text "1"))
  unfolding write_file
  Resets-write = record { run = λ w. tried (sys.is_writable (adapter_reset_path host)) w }
    where
      tried :
          (b : Bool) (w : World)
          → Ends (WritesReset host w) (
              if b
              then some
                  (true, record w { written = (adapter_reset_path host, text "1") ∷ w.written })
              else some (false, w))
      tried true w = inr refl
      tried false w = inl refl

-- Of the commands of fc_hba_reset, only one begins with the letter of "adapter".
reset_path_adapter :
    (command host : Text)
    → strncmp_eq command (text "adapter") 7 ≡ true
    → reset_path command host ≡ some (some (adapter_reset_path host))
unfolding reset_path
reset_path_adapter [] host h = absurd (cc h)
reset_path_adapter (c ∷ s) host h = elim (Bool-cases (c == b'a')) [
  | inl same ↦ rw (h, (==_iff c b'a').0 same) refl
  | inr other ↦ absurd (cc (simp other at h))
]

ruleset resets_rules = (Resets-if, Resets-lift, Resets-end, Resets-write, Resets-Keeps, keeps_rules)

Resets-target :
    {A : Type 0} (command host : Text) (f : Option Text → M A)
    → strncmp_eq command (text "adapter") 7 ≡ true
    → Resets host (f (some (adapter_reset_path host)))
    → Resets host (lift (reset_path command host) >>= f)
Resets-target command host f adapter h =
    rw (reset_path_adapter command host adapter) (Resets-lift host _ f h)

Keeps-announce : (command : Text) → Keeps (announce command)
unfolding announce
Keeps-announce command = search keeps_rules

module _ (sys : System) (program cmd sub_cmd host : Text) (rest : List Text) where
  Resets-fc_hba_reset :
      strncmp_eq sub_cmd (text "adapter") 7 ≡ true
      → Resets host (fc_hba_reset sys (program ∷ cmd ∷ sub_cmd ∷ host ∷ rest))
  unfolding fc_hba_reset
  Resets-fc_hba_reset adapter =
      search (resets_rules, Resets-bind, Resets-target, Keeps-announce) depth 15 fits 10000

module _ (sys : System) (program cmd : Text) where
  -- With a sub-command that does not begin with "adapter", cmd_reset, where it is defined, leaves
  -- the structures in use and the files written as they were.
  pub Keeps-cmd_reset :
      (sub_cmd : Text) (rest : List Text)
      → strncmp_eq sub_cmd (text "adapter") 7 ≡ false
      → Keeps (cmd_reset sys (program ∷ cmd ∷ sub_cmd ∷ rest))
  unfolding cmd_reset reset_device
  Keeps-cmd_reset sub_cmd [] other = search keeps_rules
  Keeps-cmd_reset sub_cmd (device ∷ rest) other = rw other (search keeps_rules depth 9)

  Resets-adapter :
      (sub_cmd host : Text) (rest : List Text)
      → strncmp_eq sub_cmd (text "adapter") 7 ≡ true
      → Resets host (cmd_reset sys (program ∷ cmd ∷ sub_cmd ∷ host ∷ rest))
  unfolding cmd_reset reset_device
  Resets-adapter sub_cmd host rest adapter =
      search (resets_rules, Resets-bind, Resets-true, Resets-fc_hba_reset) depth 12

  -- Given a host, cmd_reset, where it is defined, writes nothing or writes "1" once to
  -- /sys/class/fc_host/<host>/device/reset, cut to 1023 characters.
  pub cmd_reset-WritesReset :
      (sub_cmd host : Text) (rest : List Text) (w : World)
      → Ends (WritesReset host w) (cmd_reset sys (program ∷ cmd ∷ sub_cmd ∷ host ∷ rest) w)
  unfolding cmd_reset reset_device
  cmd_reset-WritesReset sub_cmd host rest w =
      elim (Bool-cases (strncmp_eq sub_cmd (text "adapter") 7)) [
        | inr other ↦ same host w _ ((Keeps-cmd_reset sub_cmd (host ∷ rest) other).at w)
        | inl adapter ↦ (Resets-adapter sub_cmd host rest adapter).run w
      ]
