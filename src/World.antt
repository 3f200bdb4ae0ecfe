-- ===== src/World.antt =====
-- What the program runs on: the system that it reads (sysfs, /dev), the memory and directory streams
-- that it holds, and what it prints and writes. The system is a parameter, since it is not code of the
-- repository.
pub mod Keeps
pub mod Frees
pub mod Unspent
pub mod Returns
pub mod Runs
pub mod Completes
pub mod Fails
use scsi_cli.Prelude.{
  Bool, List, Option, String, Text, false, if◌then◌else◌, none, some, suc, text, true, zero, ℕ, ℤ,
  ◌+◌, ◌-◌, ◌∷◌,
}
use scsi_cli.Device.{Shown}
use scsi_cli.Device.Iscsi.{IscsiConnection, IscsiSession}

pub record Dirent : Type 0 where
  pub d_name : Text
  -- d_type == DT_DIR
  pub is_directory : Bool

-- What the kernel answers, fixed during a run. A file's contents hold no byte 0.
pub record System : Type 0 where
  -- fopen(path, "r") and the contents
  pub file : Text → Option Text
  -- opendir(path) and the entries in the order of readdir, "." and ".." among them
  pub directory : Text → Option (List Dirent)
  -- open(path, O_RDONLY): the descriptor, or -1
  pub descriptor : Text → ℤ
  -- stat(path): the major and minor number of st_rdev
  pub device_numbers : Text → Option (ℕ × ℕ)
  -- fopen(path, "w") succeeds
  pub is_writable : Text → Bool
  -- the bytes that malloc leaves in a new session and a new connection
  pub raw_session : IscsiSession
  pub raw_connection : IscsiConnection

-- One call that prints.
pub data Event : Type 0 where
  -- printf, print_info, print_err, with the format
  message : Text → Event
  -- print_command_label
  label : Text → Event
  -- a routine of scsi_print.c or scsi_help.c, with what it prints
  shown : Shown → Event

pub record World : Type 0 where
  -- how many calls of malloc succeed from here on
  pub budget : ℕ
  -- structures allocated by malloc and not yet freed
  pub live : ℕ
  -- open directory streams
  pub streams : ℕ
  -- what was printed, the latest first
  pub out : List Event
  -- what was written to files of sysfs, the latest first
  pub written : List (Text × Text)

-- `none` is behaviour that the C standard leaves undefined, such as the use of a null pointer.
abbrev pub M : Type 0 → Type 0
M A = World → Option (A × World)

unfoldable pub pure : {A : Type 0} → A → M A
pure a w = some (a, w)

unfoldable pub undefined : {A : Type 0} → M A
undefined w = none

-- A value that undefined behaviour may keep from being computed.
unfoldable pub lift : {A : Type 0} → Option A → M A
lift o w = elim o [ none ↦ none | some a ↦ some (a, w) ]

unfoldable pub emit : Event → M (Unit {0})
emit e w = some (tt, record w { out = e ∷ w.out })

abbrev pub say : String → M (Unit {0})
say s = emit (message (text s))

infixl 5 ◌>>=◌ ◌>>◌
-- opening this opens the operations above too
unfoldable pub ◌>>=◌ : {A B : Type 0} → M A → (A → M B) → M B
unfolding pure undefined lift emit
◌>>=◌ m f w = elim (m w) [ none ↦ none | some (a, w') ↦ f a w' ]

abbrev pub ◌>>◌ : {B : Type 0} → M (Unit {0}) → M B → M B
m >> k = m >>= λ _. k

-- malloc of one structure, which either fails or is counted
unfoldable pub malloc : M Bool
malloc w = elim w.budget [
  | zero ↦ some (false, w)
  | suc n ↦ some (true, record w { budget = n; live = w.live + 1 })
]

-- free of one structure that malloc gave
unfoldable pub free : M (Unit {0})
free w = some (tt, record w { live = w.live - 1 })

-- opendir
unfoldable pub opendir : System → Text → M (Option (List Dirent))
opendir sys path w = elim (sys.directory path) [
  | none ↦ some (none, w)
  | some entries ↦ some (some entries, record w { streams = w.streams + 1 })
]

unfoldable pub closedir : M (Unit {0})
closedir w = some (tt, record w { streams = w.streams - 1 })

-- fopen(path, "w"), fprintf(fp, ...), fclose(fp): whether the file could be opened
unfoldable pub write_file : System → Text → Text → M Bool
write_file sys path value w =
    if sys.is_writable path
    then some (true, record w { written = (path, value) ∷ w.written })
    else some (false, w)
