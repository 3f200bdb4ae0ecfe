-- ===== src/Disk/Nvme.antt =====
-- scsi_disk_utils.c: what get_single_nvme_disk_details collects below /sys/block/<disk>.
use scsi_cli.Prelude.{Option, Text, some, text, ◌++◌}
use scsi_cli.Attribute.{device_path, entry_path, read_int, read_text, read_u64, ◌>>=◌}
use scsi_cli.Clib.Printf.{truncated}
use scsi_cli.Device.Disk.{ScsiDeviceInfo}
use scsi_cli.Disk.Queue.{get_disk_queue_data}
use scsi_cli.World.{System}

-- get_single_nvme_disk_details up to the printing
unfoldable pub collect_nvme : System → Text → ScsiDeviceInfo → Option ScsiDeviceInfo
unfolding get_disk_queue_data
collect_nvme sys name d = do
  let disk_path = truncated 256 (text "/sys/block/" ++ name)
  model ← read_text sys 64 (device_path 1024 disk_path (text "model"))
  rev ← read_text sys 64 (device_path 1024 disk_path (text "firmware_rev"))
  queue_depth ← read_int sys 64 (device_path 1024 disk_path (text "queue_count"))
  state ← read_text sys 64 (device_path 1024 disk_path (text "state"))
  pci_address ← read_text sys 64 (device_path 1024 disk_path (text "address"))
  cntlid ← read_int sys 64 (device_path 1024 disk_path (text "cntlid"))
  serial ← read_text sys 64 (device_path 1024 disk_path (text "serial"))
  dctype ← read_text sys 64 (device_path 1024 disk_path (text "dctype"))
  transport ← read_text sys 64 (device_path 1024 disk_path (text "transport"))
  cntrltype ← read_text sys 64 (device_path 1024 disk_path (text "cntrltype"))
  kato ← read_int sys 64 (device_path 1024 disk_path (text "kato"))
  nuse ← read_u64 sys 64 (device_path 1024 disk_path (text "nuse"))
  sqsize ← read_int sys 64 (device_path 1024 disk_path (text "sqsize"))
  nguid ← read_text sys 64 (entry_path 1024 disk_path (text "nguid"))
  nsid ← read_text sys 64 (entry_path 1024 disk_path (text "nsid"))
  uuid ← read_text sys 64 (entry_path 1024 disk_path (text "uuid"))
  alignment_offset ← read_u64 sys 64 (entry_path 1024 disk_path (text "alignment_offset"))
  discard_alignment ← read_u64 sys 64 (entry_path 1024 disk_path (text "discard_alignment"))
  size ← read_u64 sys 64 (entry_path 1024 disk_path (text "size"))
  capability ← read_int sys 64 (entry_path 1024 disk_path (text "capability"))
  ext_range ← read_int sys 64 (entry_path 1024 disk_path (text "ext_range"))
  range ← read_int sys 64 (entry_path 1024 disk_path (text "range"))
  wwid ← read_text sys 64 (entry_path 1024 disk_path (text "wwid"))
  q ← get_disk_queue_data sys disk_path d.q_data
  some (record d {
    disk_path = some disk_path;
    disk_name = some name;
    model = some model;
    rev = some rev;
    queue_depth = queue_depth;
    state = some state;
    pci_address = some pci_address;
    cntlid = cntlid;
    serial = some serial;
    dctype = some dctype;
    transport = some transport;
    cntrltype = some cntrltype;
    kato = kato;
    nuse = nuse;
    sqsize = sqsize;
    nguid = nguid;
    nsid = nsid;
    uuid = uuid;
    alignment_offset = alignment_offset;
    discard_alignment = discard_alignment;
    size = size;
    capability = capability;
    ext_range = ext_range;
    range = range;
    wwid = some wwid;
    q_data = q;
  })
