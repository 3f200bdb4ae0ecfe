-- ===== src/Tests.antt =====
-- A small system, runs on it, and the theorems at concrete inputs.
pub mod Commands
pub mod Routines
pub mod Disks
pub mod Rings
pub mod Attributes
use scsi_cli.Prelude.{Bool, String, [], if◌then◌else◌, none, pos, refl, some, text, true, ◌∷◌, ◌≡◌}
use scsi_cli.Clib.Compare.{strcmp_eq}
use scsi_cli.Clib.Printf.{snprintf_into}
use scsi_cli.Cmd.Reset.{cmd_reset, reset_device}
use scsi_cli.Cmd.Tables.{validate_subcommand}
use scsi_cli.Device.Iscsi.{IscsiConnection, IscsiSession}
use scsi_cli.Trigger.{announce, fc_hba_reset, reset_path}
use scsi_cli.World.{Dirent, System, World, message, write_file, ◌>>=◌, ◌>>◌}

-- A system with no file at all.
abbrev raw_session : IscsiSession
raw_session = record {
  abort_tmo = pos 0;
  creator = pos 0;
  data_pdu_in_order = pos 0;
  data_seq_in_order = pos 0;
  err_level = pos 0;
  fast_abort = pos 0;
  first_burst_len = pos 0;
  ifacename = none;
  immediate_data = pos 0;
  initial_r2t = pos 0;
  initiatorname = none;
  lu_reset_tmo = pos 0;
  max_burst_len = pos 0;
  max_outstanding_r2t = pos 0;
  recovery_tmo = pos 0;
  target_id = pos 0;
  targetname = none;
  target_state = none;
  state = none;
  tgt_reset_tmo = pos 0;
  tpgt = pos 0;
  scsi_channel = pos 0;
  scsi_bus = pos 0;
  scsi_id = pos 0;
  scsi_lun = pos 0;
  lun_count = pos 0;
}

abbrev raw_connection : IscsiConnection
raw_connection = record {
  address = none;
  data_digest = pos 0;
  exp_statsn = pos 0;
  header_digest = pos 0;
  local_port = pos 0;
  max_recv_dlength = pos 0;
  max_xmit_dlength = pos 0;
  persistent_address = none;
  persistent_port = pos 0;
  ping_tmo = pos 0;
  port = pos 0;
  recv_tmo = pos 0;
  state = none;
}

-- One disk, with a directory for its numbers; the resets of hosts can be written.
abbrev pub dirent : String → Bool → Dirent
dirent name dir = record { d_name = text name; is_directory = dir }

abbrev pub small_system : System
small_system = record {
  file = λ path.
      if strcmp_eq path (text "/sys/block/sda/stat")
      then some (text "1 2 3 4 5 6 7 8 9 10 11\n")
      else if strcmp_eq path (text "/sys/block/sda/device/model")
      then some (text "DISK\n")
      else none;
  directory = λ path.
      if strcmp_eq path (text "/sys/class/iscsi_host")
      then some (dirent "." true ∷ dirent ".." true ∷ dirent "host3" true ∷ [])
      else none;
  descriptor = λ path. pos 3;
  device_numbers = λ path. none;
  is_writable = λ path. true;
  raw_session = raw_session;
  raw_connection = raw_connection;
}

abbrev pub fresh_world : World
fresh_world = record { budget = 3; live = 0; streams = 0; out = []; written = [] }

reset_host5 :
    cmd_reset small_system
      (text "scli" ∷ text "reset" ∷ text "adapter" ∷ text "host5" ∷ [])
      fresh_world
    ≡ some (
      pos 0,
      record fresh_world {
        out =
            message (text "Command %s issued Sucessfully to %s\n")
            ∷ message (text "Issuing %s\n")
            ∷ message (text " Issuing Reset for %s\n")
            ∷ [];
        written = (text "/sys/class/fc_host/host5/device/reset", text "1") ∷ [];
      },
    )
unfolding cmd_reset validate_subcommand snprintf_into reset_device fc_hba_reset announce reset_path
    write_file ◌>>=◌
reset_host5 = refl
