-- ===== src/Fibre/Hosts.antt =====
-- scsi_fcp_utils.c: what list_fc_adapters returns.
use scsi_cli.Prelude.{
  Bool, List, Option, Text, [], ap, arith, enodev, false, if_null, if◌then◌else◌, inl, inr, leb,
  none, pos, refl, some, subst, suc, sym, text, true, zero, ℕ, ℤ, ◌+◌, ◌<◌, ◌∙◌, ◌∷◌, ◌≡◌, ◌≤◌,
}
use scsi_cli.Device.{fc_dev, fc_dev_header}
use scsi_cli.Device.Fibre.{FcDeviceInfo, zero_fc_device}
use scsi_cli.Fibre.HostLoop.{CountsHosts, HostLoop, HostLoop-if, HostLoop-pure, HostLoop-then}
use scsi_cli.Fibre.Info.{collect_link, finish_fc_info, get_fc_info}
use scsi_cli.Fibre.Port.{get_driver_info, get_symbolic_name}
use scsi_cli.Fibre.Ports.{fc_host, fc_round, list_fc_adapters}
use scsi_cli.Loop.{Flow, after, for_each_dir_with, for_each_with, give, is_dot, next, stop}
use scsi_cli.Loop.Counts.{total, undotted}
use scsi_cli.Sysfs.{alloc_fc_dev, put_fc_dev}
use scsi_cli.World.{
  Dirent, M, System, World, closedir, emit, label, malloc, pure, shown, ◌>>=◌, ◌>>◌,
}
use scsi_cli.World.Keeps.{Ends}
use scsi_cli.World.Returns.{Gives, Returns, Returns-any, Returns-pure}
use scsi_cli.World.Runs.{after_opendir}
use scsi_cli.World.Unspent.{HasBudget, Unspent, unspent_rules}

-- What list_fc_adapters returns for the entries of /sys/class/fc_host, where `budget` calls of malloc
-- succeed.
abbrev pub host_count : List Dirent → ℕ → ℤ
host_count entries budget =
    let hosts = total (undotted (λ _. 1)) entries in if leb hosts budget then pos hosts else enodev

module _ (sys : System) where
  Unspent-get_symbolic_name : (fc : FcDeviceInfo) → Unspent (get_symbolic_name sys fc)
  unfolding get_symbolic_name
  Unspent-get_symbolic_name fc = search unspent_rules depth 9

  Unspent-get_driver_info : (fc : FcDeviceInfo) → Unspent (get_driver_info sys fc)
  unfolding get_driver_info
  Unspent-get_driver_info fc = search unspent_rules depth 9

  Unspent-collect_link :
      (scsi_path sys_path : Text) (fc : FcDeviceInfo)
      → Unspent (collect_link sys scsi_path sys_path fc)
  unfolding collect_link
  Unspent-collect_link scsi_path sys_path fc = search unspent_rules depth 12

  Unspent-finish_fc_info :
      (scsi_path sys_path : Text) (fc : FcDeviceInfo)
      → Unspent (finish_fc_info sys scsi_path sys_path fc)
  unfolding finish_fc_info
  Unspent-finish_fc_info scsi_path sys_path fc =
      search (unspent_rules, Unspent-collect_link) depth 9

  Unspent-get_fc_info : (fc : FcDeviceInfo) → Unspent (get_fc_info sys fc)
  unfolding get_fc_info
  Unspent-get_fc_info fc = search (unspent_rules, Unspent-finish_fc_info) depth 12

  -- a round after its malloc
  described : ℕ → Dirent → FcDeviceInfo → M (Flow × ℕ)
  described count e fresh = do
    symbolic ← get_symbolic_name sys (fc_host sys e.d_name fresh)
    driven ← get_driver_info sys symbolic
    (_, full) ← get_fc_info sys driven
    emit (shown (fc_dev full))
    put_fc_dev
    pure (next, count + 1)

  Unspent-described : (count : ℕ) (e : Dirent) (fc : FcDeviceInfo) → Unspent (described count e fc)
  unfolding described put_fc_dev
  Unspent-described count e fc =
      search
        (unspent_rules, Unspent-get_symbolic_name, Unspent-get_driver_info, Unspent-get_fc_info)
        depth 15

  Returns-described :
      (count : ℕ) (e : Dirent) (fc : FcDeviceInfo)
      → Returns (λ r. r ≡ (next, count + 1)) (described count e fc)
  unfolding described
  Returns-described count e fc = Returns-any _ _ (λ _. Returns-any _ _ (λ _.
      Returns-any _ _ (λ _. Returns-any _ _ (λ _. Returns-any _ _ (λ _. Returns-pure _ refl)))))

  finished :
      (count n : ℕ) (w : World) (o : Option ((Flow × ℕ) × World))
      → w.budget ≡ suc n
      → Ends (HasBudget n) o
      → Gives (λ r. r ≡ (next, count + 1)) o
      → CountsHosts 1 count w o
  finished count n w none h b q = tt
  finished count n w (some ((flow, c), v)) h b q =
      inl (omega (arith, h), (ap (λ r. r.0) q, (ap (λ r. r.1) q, omega (arith, h, b))))

  allocated :
      (count : ℕ) (e : Dirent) (w : World) (budget : ℕ)
      → w.budget ≡ budget
      → CountsHosts 1 count w
          (elim (elim (elim budget as (λ b. Option (Bool × World)) [
            | zero ↦ some (false, w)
            | suc n ↦ some (true, record w { budget = n; live = w.live + 1 })
          ])
            as (λ o. Option (Option FcDeviceInfo × World)) [
              | none ↦ none
              | some (got, v) ↦ some (if got then some zero_fc_device else none, v)
            ]) [
              | none ↦ none
              | some (fresh, v) ↦ if_null fresh (pure (give enodev, count)) (described count e) v
            ])
  unfolding pure
  allocated count e w zero h = inr (omega (arith, h), refl)
  allocated count e w (suc n) h =
      finished count n w _ h
        ((Unspent-described count e zero_fc_device).at (record w { budget = n; live = w.live + 1 }))
        ((Returns-described count e zero_fc_device).value
          (record w { budget = n; live = w.live + 1 }))

  HostLoop-fc_round : (count : ℕ) (e : Dirent) → HostLoop 1 count (fc_round sys count e)
  unfolding fc_round described alloc_fc_dev ◌>>=◌ malloc pure
  HostLoop-fc_round count e = record { at = λ w. allocated count e w w.budget refl }

  HostLoop-entries :
      (entries : List Dirent) (count : ℕ)
      → HostLoop
          (total (undotted (λ _. 1)) entries)
          count
          (for_each_dir_with entries count (fc_round sys))
  unfolding for_each_dir_with for_each_with total
  HostLoop-entries [] count = HostLoop-pure count
  HostLoop-entries (e ∷ es) count =
      HostLoop-then _ _ count _ _ (HostLoop-if (is_dot e.d_name) count (HostLoop-fc_round count e))
        (HostLoop-entries es)

  enough :
      (entries : List Dirent) (w : World)
      → total (undotted (λ _. 1)) entries ≤ w.budget
      → pos (total (undotted (λ _. 1)) entries) ≡ host_count entries w.budget
  enough entries w h = ground arith

  too_few :
      (entries : List Dirent) (w : World)
      → w.budget < total (undotted (λ _. 1)) entries
      → enodev ≡ host_count entries w.budget
  too_few entries w h = ground arith

  ended :
      (entries : List Dirent) (w : World) (o : Option ((Flow × ℕ) × World))
      → CountsHosts (total (undotted (λ _. 1)) entries) 0 w o
      → Gives
          (λ r. r ≡ host_count entries w.budget)
          (elim o [
            | none ↦ none
            | some ((flow, count), v) ↦ after flow (closedir >> pure (pos count)) v
          ])
  unfolding closedir pure ◌>>=◌
  ended entries w none h = tt
  ended entries w (some ((next, count), v)) (inl (a, (q, (b, d)))) =
      ap pos (omega (arith, b)) ∙ enough entries w a
  ended entries w (some ((stop, count), v)) (inl (a, (q, r))) = absurd (cc q)
  ended entries w (some ((give x, count), v)) (inl (a, (q, r))) = absurd (cc q)
  ended entries w (some ((next, count), v)) (inr (a, q)) = absurd (cc q)
  ended entries w (some ((stop, count), v)) (inr (a, q)) = absurd (cc q)
  ended entries w (some ((give x, count), v)) (inr (a, q)) = cc q ∙ too_few entries w a

  shown_from :
      (entries : List Dirent) (v : World)
      → Gives
          (λ r. r ≡ host_count entries v.budget)
          ((do
            emit (label (text "Fabric"))
            emit (shown fc_dev_header)
            (flow, count) ← for_each_dir_with entries 0 (fc_round sys)
            after flow (closedir >> pure (pos count)))
            v)
  unfolding emit ◌>>=◌
  shown_from entries v =
      ended entries (record v { out = shown fc_dev_header ∷ (label (text "Fabric") ∷ v.out) }) _
        ((HostLoop-entries entries 0).at
          (record v { out = shown fc_dev_header ∷ (label (text "Fabric") ∷ v.out) }))

  -- Where /sys/class/fc_host can be read, list_fc_adapters, where it is defined, gives the number
  -- of its entries but "." and ".." if at least as many calls of malloc succeed, and -ENODEV
  -- otherwise.
  pub list_fc_adapters-host_count :
      (entries : List Dirent) (w : World)
      → sys.directory (text "/sys/class/fc_host") ≡ some entries
      → Gives (λ r. r ≡ host_count entries w.budget) (list_fc_adapters sys w)
  unfolding list_fc_adapters
  list_fc_adapters-host_count entries w e =
      subst (Gives (λ r. r ≡ host_count entries w.budget)) (sym (after_opendir sys _ w _ e))
        (shown_from entries (record w { streams = w.streams + 1 }))
