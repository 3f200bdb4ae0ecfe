-- ===== src/Fibre/Leak.antt =====
-- scsi_fcp_utils.c: the structures that list_rport_adapters leaves allocated.
use scsi_cli.Prelude.{
  Bool, Bool-cases, List, Option, Text, [], arith, false, if◌then◌else◌, inl, inr, none, pos, refl,
  some, suc, text, true, zero, ℕ, ◌+◌, ◌∙◌, ◌∷◌, ◌≡◌, ◌⊎◌,
}
use scsi_cli.Attribute.{entry_path}
use scsi_cli.Clib.Compare.{strncmp_eq}
use scsi_cli.Device.{fc_rport_header, fc_rport_info}
use scsi_cli.Device.Fibre.{FcDeviceInfo, FcRportInfo}
use scsi_cli.Fibre.Ports.{fresh_rport, get_rport_info, list_rport_adapters, rport_round}
use scsi_cli.Loop.{Flow, after, for_each, for_each_dir, give, is_dot, next, stop}
use scsi_cli.Loop.Counts.{total, undotted}
use scsi_cli.World.{
  Dirent, M, System, World, closedir, emit, free, lift, malloc, opendir, pure, shown, ◌>>=◌, ◌>>◌,
}
use scsi_cli.World.Keeps.{Ends, IsSame, Keeps, keeps_rules}

-- A round or a loop that started in `w`: it went on, and left `n` more structures in use.
abbrev pub Added : ℕ → World → Option (Flow × World) → Type 0
Added n w none = Unit
Added n w (some (flow, w')) = (flow ≡ next) × (w'.live ≡ w.live + n)

record Adds (n : ℕ) (m : M Flow) : Type 0 where
  adds : (w : World) → Added n w (m w)

shift :
    (w u : World) (a b : ℕ) (o : Option (Flow × World))
    → u.live ≡ w.live + a
    → Added b u o
    → Added (a + b) w o
shift w u a b none h k = tt
shift w u a b (some (flow, w')) h (q, k) = (q, omega (arith, h, k))

module _ (weight : Dirent → ℕ) (body : Dirent → M Flow) where
  Adds-for_each :
      ((e : Dirent) → Adds (weight e) (body e))
      → (es : List Dirent) → Adds (total weight es) (for_each es body)
  unfolding for_each total ◌>>=◌
  Adds-for_each h [] = record { adds = λ w. (refl, omega arith) }
  Adds-for_each h (e ∷ es) = record {
    adds = λ w. go w (body e w) ((h e).adds w) (Adds-for_each h es);
  }
    where
      go :
          (w : World) (o : Option (Flow × World))
          → Added (weight e) w o
          → Adds (total weight es) (for_each es body)
          → Added (weight e + total weight es) w (elim o [
            | none ↦ none
            | some (flow, w') ↦
                (elim flow as (λ _. M Flow) [
                  | next ↦ for_each es body
                  | stop ↦ pure next
                  | give v ↦ pure (give v)
                ])
                  w'
          ])
      go w none h k = tt
      go w (some (next, u)) (q, m) k =
          shift w u (weight e) (total weight es) (for_each es body u) m (k.adds u)
      go w (some (stop, u)) (q, m) k = absurd (cc q)
      go w (some (give v, u)) (q, m) k = absurd (cc q)

passed_over :
    (b : Bool) (n : ℕ) {m : M Flow}
    → Adds n m
    → Adds (if b then 0 else n) (if b then pure next else m)
unfolding pure
passed_over true n h = record { adds = λ w. (refl, omega arith) }
passed_over false n h = h

stepped :
    {A B : Type 0} (m : M A) (f : A → M B) (w : World) (a : A) (u : World)
    → m w ≡ some (a, u)
    → (m >>= f) w ≡ f a u
unfolding ◌>>=◌
stepped {A} {B} m f w a u e = continued (m w) e
  where
    continued :
        (o : Option (A × World))
        → o ≡ some (a, u)
        → (elim o as (λ _. Option (B × World)) [ none ↦ none | some (b, v) ↦ f b v ]) ≡ f a u
    continued o e = rw e refl

-- 1 for an entry that is a remote port.
abbrev pub one_rport : Dirent → ℕ
one_rport e = if strncmp_eq e.d_name (text "rport") 5 then 1 else 0

module _ (sys : System) where
  Keeps-get_rport_info : (rport : FcRportInfo) → Keeps (get_rport_info sys rport)
  unfolding get_rport_info
  Keeps-get_rport_info rport = search keeps_rules depth 15

  printed :
      (w u : World) (o : Option (FcRportInfo × World))
      → u.live ≡ w.live + 1
      → Ends (IsSame u) o
      → Added 1 w (elim o [
        | none ↦ none
        | some (rport, v) ↦ (emit (shown (fc_rport_info rport)) >> pure next) v
      ])
  unfolding ◌>>=◌
  printed w u none h k = tt
  printed w u (some (rport, v)) h k = (refl, k.same_live ∙ h)

  rport_round-Adds : (e : Dirent) → Adds (one_rport e) (rport_round sys e)
  unfolding rport_round malloc free ◌>>=◌
  rport_round-Adds e = record {
    adds = λ w. split w w.budget refl (Bool-cases (strncmp_eq e.d_name (text "rport") 5));
  }
    where
      split :
          (w : World) (n : ℕ)
          → w.budget ≡ n
          → (strncmp_eq e.d_name (text "rport") 5 ≡ true)
            ⊎ (strncmp_eq e.d_name (text "rport") 5 ≡ false)
          → Added (one_rport e) w (rport_round sys e w)
      split w zero b (inl port) = rw (b, port) tt
      split w zero b (inr other) = rw (b, other) (refl, omega arith)
      split w (suc n) b (inl port) =
          rw (b, port)
            (printed (record w { budget = suc n }) (record w { budget = n; live = w.live + 1 }) _
              refl
              ((Keeps-get_rport_info (fresh_rport e.d_name)).at
                (record w { budget = n; live = w.live + 1 })))
      split w (suc n) b (inr other) = rw (b, other) (refl, omega arith)

  ended :
      (w u : World) (n : ℕ) (o : Option (Flow × World))
      → u.live ≡ w.live
      → Added n u o
      → Ends
          (λ w'. w'.live ≡ w.live + n)
          (elim o [ none ↦ none | some (flow, v) ↦ (after flow (closedir >> pure (pos 0))) v ])
  unfolding closedir ◌>>=◌
  ended w u n none h k = tt
  ended w u n (some (next, v)) h (q, m) = omega (arith, h, m)
  ended w u n (some (stop, v)) h (q, m) = absurd (cc q)
  ended w u n (some (give r, v)) h (q, m) = absurd (cc q)

  opened :
      (path : Text) (entries : List Dirent) (w : World)
      → sys.directory path ≡ some entries
      → opendir sys path w ≡ some (some entries, record w { streams = w.streams + 1 })
  unfolding opendir
  opened path entries w e = rw (e, opendir) refl

  lifted : (o : Option Text) (a : Text) (w : World) → o ≡ some a → lift o w ≡ some (a, w)
  unfolding lift
  lifted o a w e = rw e refl

  loop-Adds :
      (entries : List Dirent)
      → Adds (total (undotted one_rport) entries) (for_each_dir entries (rport_round sys))
  unfolding for_each_dir
  loop-Adds entries =
      Adds-for_each (undotted one_rport) _
        (λ e. passed_over (is_dot e.d_name) (one_rport e) (rport_round-Adds e)) entries

  headed :
      (entries : List Dirent) (w u : World)
      → u.live ≡ w.live
      → Ends
          (λ w'. w'.live ≡ w.live + total (undotted one_rport) entries)
          ((emit (shown fc_rport_header)
              >> (for_each_dir entries (rport_round sys) >>= λ flow.
                  after flow (closedir >> pure (pos 0))))
            u)
  unfolding ◌>>=◌
  headed entries w u h =
      ended w (record u { out = shown fc_rport_header ∷ u.out }) _ _ h
        ((loop-Adds entries).adds (record u { out = shown fc_rport_header ∷ u.out }))

  -- Where the directory of the host can be read, list_rport_adapters, where it is defined, leaves
  -- one more structure allocated for each entry but "." and ".." whose name begins with "rport".
  pub list_rport_adapters_leak :
      (fc : FcDeviceInfo) (sys_path : Text) (entries : List Dirent)
      → fc.sys_dev_path ≡ some sys_path
      → sys.directory (entry_path 64 sys_path (text "device")) ≡ some entries
      → (w : World)
      → Ends
          (λ w'. w'.live ≡ w.live + total (undotted one_rport) entries)
          (list_rport_adapters sys fc w)
  unfolding list_rport_adapters
  list_rport_adapters_leak fc sys_path entries p e w =
      rw
        (
          stepped (lift fc.sys_dev_path) _ w sys_path w (lifted fc.sys_dev_path sys_path w p),
          stepped (opendir sys (entry_path 64 sys_path (text "device"))) _ w (some entries) u
              (opened (entry_path 64 sys_path (text "device")) entries w e),
        )
        (headed entries w u refl)
    where
      u : World
      u = record w { streams = w.streams + 1 }
