-- ===== src/Cmd/Status.antt =====
-- scsi_test.c: what main makes of the result of a command.
use scsi_cli.Prelude.{
  List, Option, Text, ap, einval, enotty, eq_ℤ, false, get_elem?, if◌then◌else◌, inl, inr,
  is_negative, length, ltb, negsuc, none, pos, refl, some, ℕ, ℤ, ◌≡◌, ◌⊎◌,
}
use scsi_cli.Cmd.Help.{help_cmd}
use scsi_cli.Cmd.Main.{handle_cmd, main, report}
use scsi_cli.Device.{general_help}
use scsi_cli.World.{M, System, World, emit, pure, shown, ◌>>=◌, ◌>>◌}
use scsi_cli.World.Returns.{
  Gives, Returns, Returns-any, Returns-bind, Returns-if, Returns-option, Returns-pure,
}

-- What handle_cmd returns: a number that is not negative, or -EINVAL.
abbrev pub IsReported : ℤ → Type 0
IsReported ret = (is_negative ret ≡ false) ⊎ (ret ≡ einval)

report-IsReported : (ret : ℤ) → Returns IsReported (report ret)
unfolding report
report-IsReported (pos n) = Returns-pure (pos n) (inl refl)
report-IsReported (negsuc n) = Returns-any _ _ (λ _. Returns-pure einval (inr refl))

help_cmd-IsReported : (argv : List Text) → Returns IsReported (help_cmd argv)
unfolding help_cmd
help_cmd-IsReported argv =
    Returns-option (get_elem? argv 2) (Returns-any _ _ (λ _. Returns-pure (pos 0) (inl refl)))
      (λ topic. Returns-any _ _ (λ _. Returns-any _ _ (λ _. Returns-pure (pos 0) (inl refl))))

module _ (sys : System) (argv : List Text) where
  -- handle_cmd, where it is defined, gives a number that is not negative or -EINVAL.
  pub handle_cmd-IsReported : Returns IsReported (handle_cmd sys argv)
  unfolding handle_cmd
  handle_cmd-IsReported = Returns-any _ _ (λ arg. Returns-any _ _ (λ got.
      Returns-if _ (Returns-pure einval (inr refl)) (
        Returns-bind _ _
          (Returns-if _ (help_cmd-IsReported argv) (
            Returns-if _ (Returns-any _ _ (λ _. Returns-pure (pos 0) (inl refl)))
              (Returns-any _ _ report-IsReported)))
          (λ ret h. Returns-any _ _ (λ _. Returns-pure ret h)))))

  -- what main does after handle_cmd
  exit_status : ℤ → M ℕ
  exit_status err = do
    (if eq_ℤ err enotty then emit (shown general_help) else pure tt)
    pure (if eq_ℤ err (pos 0) then 0 else 1)

  quiet : (err : ℤ) → IsReported err → exit_status err ≡ pure (if eq_ℤ err (pos 0) then 0 else 1)
  unfolding exit_status ◌>>=◌
  quiet err (inr e) = rw e refl
  quiet (pos n) (inl e) = refl
  quiet (negsuc n) (inl e) = absurd (cc e)

  agree :
      (o : Option (ℤ × World))
      → Gives IsReported o
      → elim o [ none ↦ none | some (err, w) ↦ exit_status err w ]
        ≡ elim o [ none ↦ none | some (err, w) ↦ pure (if eq_ℤ err (pos 0) then 0 else 1) w ]
  agree none h = refl
  agree (some (err, w)) h = ap (λ m. m w) (quiet err h)

  -- With at least one word, main runs handle_cmd, prints nothing more, and exits with 0 where that
  -- gave 0 and with 1 where it gave anything else.
  pub main-handle_cmd :
      ltb (length argv) 2 ≡ false
      → (w : World)
      → main sys argv w
        ≡ (handle_cmd sys argv >>= λ err. pure (if eq_ℤ err (pos 0) then 0 else 1)) w
  unfolding main exit_status ◌>>=◌
  main-handle_cmd enough w =
      rw enough (agree (handle_cmd sys argv w) (handle_cmd-IsReported.value w))
