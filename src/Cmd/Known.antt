-- ===== src/Cmd/Known.antt =====
-- scsi_test.c: validate_command and validate_subcommand against membership in the tables.
use mathlib.Core.List.{Memᴰ}
use mathlib.Core.List.Memᴰ
use scsi_cli.Prelude.{
  Bool, Bool-cases, List, Option, Text, [], ap, eagain, enoent, false, if_null, if◌then◌else◌, inl,
  inr, map, none, pos, refl, some, true, ◌∷◌, ◌≡◌, ◌≢◌, ◌⊎◌,
}
use scsi_cli.Clib.Compare.{strcmp_eq, strcmp_eq→eq, strcmp_eq→ne}
use scsi_cli.Cmd.Tables.{
  Handler, cmd_str, find_command, find_sub_command, sub_cmd_str, validate_command,
  validate_subcommand,
}

-- The names of the commands.
abbrev pub command_names : List Text
command_names = map (λ row. row.0) cmd_str

-- A row for a command and a sub-command.
abbrev pub IsRow : Text → Text → List (Text × (Text × Text)) → Type 0
IsRow cmd sub_cmd rows = Memᴰ {A = Text × Text} (cmd, sub_cmd) (map (λ row. (row.0, row.1.0)) rows)

find_command-names :
    (cmd : Text) (rows : List (Text × (Handler × Text)))
    → if_null
        (find_command cmd rows)
        (¬ (Memᴰ cmd (map (λ row. row.0) rows)))
        (λ _. Memᴰ cmd (map (λ row. row.0) rows))
unfolding find_command
find_command-names cmd [] = Memᴰ.not-nil
find_command-names cmd ((name, (fn, desc)) ∷ rest) = elim (Bool-cases (strcmp_eq cmd name)) [
  | inl same ↦ rw same (Memᴰ.head (strcmp_eq→eq cmd name same))
  | inr other ↦
      rw other
        (extend (strcmp_eq→ne cmd name other) (find_command cmd rest) (find_command-names cmd rest))
]
  where
    extend :
        cmd ≢ name
        → (o : Option Handler)
        → if_null o
            (¬ (Memᴰ cmd (map (λ row. row.0) rest)))
            (λ _. Memᴰ cmd (map (λ row. row.0) rest))
        → if_null o
            (¬ (Memᴰ cmd (name ∷ map (λ row. row.0) rest)))
            (λ _. Memᴰ cmd (name ∷ map (λ row. row.0) rest))
    extend ne none h = λ m. elim (Memᴰ.cases_cons m) [ inl e ↦ ne e | inr m' ↦ h m' ]
    extend ne (some _) h = Memᴰ.tail h

-- validate_command gives 0 for the names of the commands, and -EAGAIN for every other word.
pub validate_command_lem :
    (cmd : Text)
    → (Memᴰ cmd command_names × (validate_command cmd ≡ pos 0))
      ⊎ (¬ (Memᴰ cmd command_names) × (validate_command cmd ≡ eagain))
unfolding validate_command
validate_command_lem cmd = split (find_command cmd cmd_str) (find_command-names cmd cmd_str)
  where
    split :
        (o : Option Handler)
        → if_null o (¬ (Memᴰ cmd command_names)) (λ _. Memᴰ cmd command_names)
        → (Memᴰ cmd command_names × (if_null o eagain (λ _. pos 0) ≡ pos 0))
          ⊎ (¬ (Memᴰ cmd command_names) × (if_null o eagain (λ _. pos 0) ≡ eagain))
    split none h = inr (h, refl)
    split (some _) h = inl (h, refl)

find_sub_command-names :
    (cmd sub_cmd : Text) (rows : List (Text × (Text × Text)))
    → if find_sub_command cmd sub_cmd rows
      then IsRow cmd sub_cmd rows
      else ¬ (IsRow cmd sub_cmd rows)
unfolding find_sub_command
find_sub_command-names cmd sub_cmd [] = Memᴰ.not-nil
find_sub_command-names cmd sub_cmd ((name, (sub_name, desc)) ∷ rest) =
    elim (Bool-cases (strcmp_eq cmd name)) [
      | inr other ↦ rw other (
          extend (find_sub_command cmd sub_cmd rest)
            (λ e. strcmp_eq→ne cmd name other (ap (λ p. p.0) e))
            (find_sub_command-names cmd sub_cmd rest))
      | inl same ↦ elim (Bool-cases (strcmp_eq sub_cmd sub_name)) [
        | inl same' ↦
            rw (same, same', strcmp_eq→eq cmd name same, strcmp_eq→eq sub_cmd sub_name same')
              (Memᴰ.head refl)
        | inr other ↦
            rw (same, other)
              (extend (find_sub_command cmd sub_cmd rest)
                (λ e. strcmp_eq→ne sub_cmd sub_name other (ap (λ p. p.1) e))
                (find_sub_command-names cmd sub_cmd rest))
      ]
    ]
  where
    extend :
        (b : Bool)
        → (Path (Text × Text) (cmd, sub_cmd) (name, sub_name) → ⊥)
        → (if b then IsRow cmd sub_cmd rest else ¬ (IsRow cmd sub_cmd rest))
        → if b
          then IsRow cmd sub_cmd ((name, (sub_name, desc)) ∷ rest)
          else ¬ (IsRow cmd sub_cmd ((name, (sub_name, desc)) ∷ rest))
    extend true ne h = Memᴰ.tail h
    extend false ne h = λ m. elim (Memᴰ.cases_cons m) [ inl e ↦ ne e | inr m' ↦ h m' ]

-- validate_subcommand gives 0 for the pairs of the table sub_cmd_str, and -ENOENT for every other
-- pair.
pub validate_subcommand_lem :
    (cmd sub_cmd : Text)
    → (IsRow cmd sub_cmd sub_cmd_str × (validate_subcommand cmd sub_cmd ≡ pos 0))
      ⊎ (¬ (IsRow cmd sub_cmd sub_cmd_str) × (validate_subcommand cmd sub_cmd ≡ enoent))
unfolding validate_subcommand
validate_subcommand_lem cmd sub_cmd =
    split (find_sub_command cmd sub_cmd sub_cmd_str)
      (find_sub_command-names cmd sub_cmd sub_cmd_str)
  where
    split :
        (b : Bool)
        → (if b then IsRow cmd sub_cmd sub_cmd_str else ¬ (IsRow cmd sub_cmd sub_cmd_str))
        → (IsRow cmd sub_cmd sub_cmd_str × ((if b then pos 0 else enoent) ≡ pos 0))
          ⊎ (¬ (IsRow cmd sub_cmd sub_cmd_str) × ((if b then pos 0 else enoent) ≡ enoent))
    split true h = inl (h, refl)
    split false h = inr (h, refl)
