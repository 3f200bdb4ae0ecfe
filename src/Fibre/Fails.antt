-- ===== src/Fibre/Fails.antt =====
-- scsi_fcp_utils.c: list_fc_adapters on a system with a host and without a driver that it knows.
use scsi_cli.Prelude.{
  All, List, Option, Text, [], arith, false, if_null, none, refl, some, subst, sym, text, true, ℕ,
  ◌++◌, ◌<◌, ◌∙◌, ◌∷◌, ◌≡◌,
}
use scsi_cli.Attribute.{entry_path}
use scsi_cli.Clib.Stdio.{fgets}
use scsi_cli.Device.Fibre.{FcDeviceInfo, zero_fc_device}
use scsi_cli.Fibre.Info.{get_fc_info}
use scsi_cli.Fibre.Port.{first_driver, get_driver_info, get_symbolic_name}
use scsi_cli.Fibre.Ports.{fc_host, fc_round, list_fc_adapters}
use scsi_cli.Loop.{is_dot}
use scsi_cli.Loop.Fails.{Fails-for_each_dir_with}
use scsi_cli.Print.{remove_newline}
use scsi_cli.Sysfs.{alloc_fc_dev}
use scsi_cli.World.{Dirent, M, System, World, malloc, opendir, pure, say, ◌>>=◌, ◌>>◌}
use scsi_cli.World.Completes.{
  Completes, Completes-bind, Completes-closedir, Completes-emit, Completes-found, Completes-known,
  Completes-lift, Completes-malloc, Completes-opendir, Completes-pure,
}
use scsi_cli.World.Fails.{
  Fails, Fails-after, Fails-first, Fails-found, Fails-lift, Fails-through, Fails-undefined,
  Fails-within,
}

alloc_fc_dev-Completes : Completes 1 [] (λ got. got ≡ some zero_fc_device) alloc_fc_dev
unfolding alloc_fc_dev
alloc_fc_dev-Completes =
    Completes-bind malloc _ Completes-malloc (λ got q. Completes-pure _ (rw q refl))

module _ (sys : System) where
  -- No directory of a qla2xxx or lpfc driver, or no directory of drivers at all.
  abbrev pub HasNoDriver : Type 0
  HasNoDriver =
      if_null (sys.directory (text "/sys/bus/pci/drivers")) Unit
        (λ drivers. first_driver drivers ≡ none)

  Fails-get_fc_info : (fc : FcDeviceInfo) → fc.driver_name ≡ none → Fails 0 (get_fc_info sys fc)
  unfolding get_fc_info
  Fails-get_fc_info fc h =
      Fails-through _ _ (λ sys_path. Fails-through _ _ (λ host. Fails-first _ _ (Fails-lift _ h)))

  Completes-get_symbolic_name :
      (fc : FcDeviceInfo) (host path : Text)
      → fc.host_name ≡ some host
      → fc.sys_dev_path ≡ some path
      → fc.driver_name ≡ none
      → Completes 0 [] (λ r. r.driver_name ≡ none) (get_symbolic_name sys fc)
  unfolding get_symbolic_name
  Completes-get_symbolic_name fc host path h p d = Completes-found fc.host_name host _ _ h (
      Completes-known _ _ path (Completes-lift _ (rw p refl))
        (text_of (sys.file (entry_path 64 path (text "symbolic_name")))))
    where
      said :
          Completes 0 []
            (λ (r : FcDeviceInfo). r.driver_name ≡ none)
            (do say "Can not open %s\n"; pure fc)
      said = Completes-bind _ _ (Completes-emit _) (λ _ _. Completes-pure fc d)

      line_of :
          (p : Option Text)
          → Completes 0 []
              (λ (r : FcDeviceInfo). r.driver_name ≡ none)
              (if_null p
                (pure fc)
                (λ p. pure (record fc { symbolic_name = some (remove_newline p) })))
      line_of none = Completes-pure fc d
      line_of (some p) = Completes-pure _ d

      text_of :
          (o : Option Text)
          → Completes 0 []
              (λ (r : FcDeviceInfo). r.driver_name ≡ none)
              (if_null o
                (do say "Can not open %s\n"; pure fc)
                (λ contents.
                  if_null
                    (fgets 256 contents)
                    (pure fc)
                    (λ p. pure (record fc { symbolic_name = some (remove_newline p) }))))
      text_of none = said
      text_of (some contents) = line_of (fgets 256 contents)

  Fails-driven :
      {A : Type 0} (fc : FcDeviceInfo) (f : FcDeviceInfo → M A)
      → HasNoDriver
      → Fails 0 (f fc)
      → Fails 0 (get_driver_info sys fc >>= f)
  unfolding get_driver_info
  Fails-driven fc f h k = split (sys.directory (text "/sys/bus/pci/drivers")) refl h
    where
      opened :
          Completes 0 []
            (λ dir. dir ≡ sys.directory (text "/sys/bus/pci/drivers"))
            (opendir sys (text "/sys/bus/pci/drivers"))
      opened = Completes-opendir sys (text "/sys/bus/pci/drivers")

      split :
          (o : Option (List Dirent))
          → sys.directory (text "/sys/bus/pci/drivers") ≡ o
          → if_null o Unit (λ drivers. first_driver drivers ≡ none)
          → Fails 0 (get_driver_info sys fc >>= f)
      split none e h =
          Fails-first _ f (Fails-after {n = 0} _ _ opened (λ dir q. rw (q ∙ e) Fails-undefined))
      split (some drivers) e h =
          Fails-after {Q = λ r. r ≡ fc} {xs = []} _ f
            (Completes-bind _ _ opened (λ dir q. Completes-found dir drivers _ _ (q ∙ e) (
              Completes-bind {n = 0} {ys = []} _ _ Completes-closedir
                (λ _ _. rw h (Completes-pure fc refl)))))
            (λ r q. subst (λ g. Fails 0 (f g)) (sym q) k)

  Fails-fc_round : (count : ℕ) (e : Dirent) → HasNoDriver → Fails 1 (fc_round sys count e)
  unfolding fc_round
  Fails-fc_round count e h = Fails-after alloc_fc_dev _ alloc_fc_dev-Completes (λ got q.
      Fails-found got zero_fc_device _ _ q (
        Fails-after _ _
          (Completes-get_symbolic_name (fc_host sys e.d_name zero_fc_device) e.d_name
            (entry_path 64 (text "/sys/class/fc_host") e.d_name) refl refl refl)
          (λ symbolic d.
            Fails-driven symbolic _ h (Fails-first _ _ (Fails-get_fc_info symbolic d)))))

  list_fc_adapters-Fails :
      (us : List Dirent) (e : Dirent) (vs : List Dirent)
      → sys.directory (text "/sys/class/fc_host") ≡ some (us ++ (e ∷ vs))
      → All (λ u. is_dot u.d_name ≡ true) us
      → is_dot e.d_name ≡ false
      → HasNoDriver
      → Fails 1 (list_fc_adapters sys)
  unfolding list_fc_adapters
  list_fc_adapters-Fails us e vs dir dots other h = Fails-within _ 1 _ (omega arith) (
      Fails-after _ _ (Completes-opendir sys (text "/sys/class/fc_host")) (λ found q.
        Fails-found found (us ++ (e ∷ vs)) _ _ (q ∙ dir) (
          Fails-after _ _ (Completes-emit _) (λ _ _. Fails-after _ _ (Completes-emit _) (λ _ _.
            Fails-first _ _ (
              Fails-for_each_dir_with 1 0 (fc_round sys) us e vs dots other
                (Fails-fc_round 0 e h)))))))

  -- Where memory is left, /sys/class/fc_host has an entry after "." and "..", and
  -- /sys/bus/pci/drivers is missing or has no directory of a qla2xxx or lpfc driver,
  -- list_fc_adapters is undefined: a null pointer is used.
  pub list_fc_adapters_undefined :
      (us : List Dirent) (e : Dirent) (vs : List Dirent) (w : World)
      → sys.directory (text "/sys/class/fc_host") ≡ some (us ++ (e ∷ vs))
      → All (λ u. is_dot u.d_name ≡ true) us
      → is_dot e.d_name ≡ false
      → HasNoDriver
      → 0 < w.budget
      → list_fc_adapters sys w ≡ none
  list_fc_adapters_undefined us e vs w dir dots other h memory =
      (list_fc_adapters-Fails us e vs dir dots other h).undefined_from w memory
