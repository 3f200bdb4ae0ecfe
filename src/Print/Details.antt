-- ===== src/Print/Details.antt =====
-- scsi_print.c: the details of one disk.
use scsi_cli.Prelude.{Option, Text, [], some, ◌%◌, ◌*◌, ◌^◌, ◌∷◌}
use scsi_cli.Clib.Format.{all_of, arg_d, arg_s, arg_u, printf}
use scsi_cli.Device.Disk.{ScsiDeviceInfo}
use scsi_cli.Device.Queue.{DiskQueueData}
use scsi_cli.Print.{dash, size_text}

-- print_scsi_queue_data
unfoldable pub print_scsi_queue_data : DiskQueueData → Option Text
print_scsi_queue_data q = all_of (
    printf "\n %-.48s\n" (arg_s (some dash) ∷ [])
    ∷ printf "\t\tQueue Data\t" []
    ∷ printf "\n %-.48s\n\n" (arg_s (some dash) ∷ [])
    ∷ printf " Scheduler: \n  %s\n\n" (arg_s q.scheduler ∷ [])
    ∷ printf " Physical Block Size\t: %s \n" (arg_s (some (size_text q.physical_block_size)) ∷ [])
    ∷ printf " Logical Block Size\t: %s \n" (arg_s (some (size_text q.logical_block_size)) ∷ [])
    ∷ printf " Minimum IO Size\t: %s \n" (arg_s (some (size_text q.minimum_io_size)) ∷ [])
    ∷ printf " Optimal IO Size\t: %s \n" (arg_s (some (size_text q.optimal_io_size)) ∷ [])
    ∷ printf " Zoned Append Max Bytes\t: %s \n"
        (arg_s (some (size_text q.zone_append_max_bytes)) ∷ [])
    ∷ printf " Zone Write Granularity\t: %s \n"
        (arg_s (some (size_text q.zone_write_granularity)) ∷ [])
    ∷ printf " Discard Max Bytes  \t: %s \n" (arg_s (some (size_text q.discard_max_bytes)) ∷ [])
    ∷ printf " Discard max HW bytes  \t: %s \n"
        (arg_s (some (size_text q.discard_max_hw_bytes)) ∷ [])
    ∷ printf " Discard zeroes data  \t: %s \n" (arg_s (some (size_text q.discard_zeroes_data)) ∷ [])
    ∷ printf " Discard Granularity \t: %s \n\n"
        (arg_s (some (size_text q.discard_granularity)) ∷ [])
    ∷ printf " IO Poll\t:  %-8lld \n" (arg_u q.io_poll ∷ [])
    ∷ printf " IO Poll Delay\t:  %-8lld \n" (arg_u q.io_poll_delay ∷ [])
    ∷ printf " stable_writes\t:  %-8lld \n" (arg_u q.stable_writes ∷ [])
    ∷ printf " wbt_lat_usec\t:  %-8lld \n" (arg_u q.wbt_lat_usec ∷ [])
    ∷ printf " rq_affinity\t:  %-8lld \n" (arg_u q.rq_affinity ∷ [])
    ∷ printf " DAX\t  : %-8lld\tadd_random\t : %-8lld \n" (arg_u q.dax ∷ arg_u q.add_random ∷ [])
    ∷ printf " FUA\t  : %-8lld \tnomerges \t : %-8lld \n" (arg_u q.fua ∷ arg_u q.nomerges ∷ [])
    ∷ printf " Segments : %-8lld\tSegment Size\t : %s \n"
        (arg_u q.max_segments ∷ arg_s (some (size_text q.max_segment_size)) ∷ [])
    ∷ printf " Zoned\t  : %-8lld\tnr_zones\t : %-8lld \n" (arg_u q.zoned ∷ arg_u q.nr_zones ∷ [])
    ∷ printf " Readahead : %-8lld \tWrite Cache\t : %s\n"
        (arg_u q.read_ahead_kb ∷ arg_s q.write_cache ∷ [])
    ∷ printf " WriteSame : %s \tWrite Zeroes  \t : %s \n" (
        arg_s (some (size_text q.write_same_max_bytes))
        ∷ arg_s (some (size_text q.write_zeroes_max_bytes))
        ∷ [])
    ∷ [])

-- print_scsi_disk_details
unfoldable pub print_scsi_disk_details : ScsiDeviceInfo → Option Text
print_scsi_disk_details d = all_of (
    printf "\n%-.48s\n" (arg_s (some dash) ∷ [])
    ∷ printf "\tShow Details for %s" (arg_s d.disk_name ∷ [])
    ∷ printf "\n%-.48s\n" (arg_s (some dash) ∷ [])
    ∷ printf "\n" []
    ∷ printf " Vendor\t\t:  %s \n" (arg_s d.vendor ∷ [])
    ∷ printf " Model Name\t:  %-16s \n" (arg_s d.model ∷ [])
    ∷ printf " Size\t\t:  %llu  Sectors, %s \n" (
        arg_u d.size
        ∷ arg_s (some (size_text (d.q_data.logical_block_size * d.size % 2 ^ 64)))
        ∷ [])
    ∷ printf " Disk Type\t:  %s \n" (arg_s (some d.disk_type) ∷ [])
    ∷ printf " Revision\t:  %s \n" (arg_s d.rev ∷ [])
    ∷ printf " Disk Path\t:  %s \n" (arg_s d.disk_path ∷ [])
    ∷ printf " Max Sectors\t:  %llu \n" (arg_u d.max_sectors ∷ [])
    ∷ printf " Range\t\t:  %d \n" (arg_d d.range ∷ [])
    ∷ printf " Extent Range\t:  %d \n" (arg_d d.ext_range ∷ [])
    ∷ printf " Capability\t:  %#x \n" (arg_d d.capability ∷ [])
    ∷ printf " Queue Depth\t:  %-8d \n" (arg_d d.queue_depth ∷ [])
    ∷ printf " Queue Type\t:  %-8s \n" (arg_s d.queue_type ∷ [])
    ∷ printf " CDL Enabled\t:  %-8d \n" (arg_d d.cdl_enabled ∷ [])
    ∷ printf " CDL Supported\t:  %-8d \n" (arg_d d.cdl_supported ∷ [])
    ∷ printf " EH Timeout\t:  %-8d \n" (arg_d d.eh_timeout ∷ [])
    ∷ printf " TimeOut\t:  %-16d \n" (arg_d d.timeout ∷ [])
    ∷ printf " DH State\t:  %-8s \n" (arg_s d.state ∷ [])
    ∷ printf " IO Done cnt\t:  %#llx \n" (arg_u d.iodone_cnt ∷ [])
    ∷ printf " IO error cnt\t:  %#llx \n" (arg_u d.ioerr_cnt ∷ [])
    ∷ printf " IO Request cnt\t:  %#llx \n" (arg_u d.iorequest_cnt ∷ [])
    ∷ printf " IO Counter bits:  %lld \n" (arg_u d.iocounterbits ∷ [])
    ∷ printf " IO Timeout\t:  %lld \n" (arg_u d.iotmo_cnt ∷ [])
    ∷ printf " WWID\t\t:  %-64s \n" (arg_s d.wwid ∷ [])
    ∷ printf " Alignment Offset :  %#llx \n" (arg_u d.alignment_offset ∷ [])
    ∷ printf " Discard Alignment:  %#llx \n" (arg_u d.discard_alignment ∷ [])
    ∷ printf "\n Scsi Device Event Notification \n\n" []
    ∷ printf " Capacity Change Reported\t:  %d \n" (arg_d d.evt_capacity_change_reported ∷ [])
    ∷ printf " Inquiry Change Reported\t:  %d \n" (arg_d d.evt_inquiry_change_reported ∷ [])
    ∷ printf " LUN Change Reported\t\t:  %d \n" (arg_d d.evt_lun_change_reported ∷ [])
    ∷ printf " Media Change\t\t\t:  %d \n" (arg_d d.evt_media_change ∷ [])
    ∷ printf " Mode Parameter Change Reported :  %d \n"
        (arg_d d.evt_mode_parameter_change_reported ∷ [])
    ∷ printf " Soft Threshold Reached \t:  %d \n" (arg_d d.evt_capacity_change_reported ∷ [])
    ∷ print_scsi_queue_data d.q_data
    ∷ [])

-- print_nvme_disk_details
unfoldable pub print_nvme_disk_details : ScsiDeviceInfo → Option Text
print_nvme_disk_details d = all_of (
    printf "\n%-.48s\n" (arg_s (some dash) ∷ [])
    ∷ printf "\tShow Details for %s\t" (arg_s d.disk_name ∷ [])
    ∷ printf "\n%-.48s\n" (arg_s (some dash) ∷ [])
    ∷ printf " Model Name\t:  %s \n" (arg_s d.model ∷ [])
    ∷ printf " Revision\t:  %s \n" (arg_s d.rev ∷ [])
    ∷ printf " Serial\t\t:  %s \n" (arg_s d.serial ∷ [])
    ∷ printf " Disk Path\t:  %-8s \n" (arg_s d.disk_path ∷ [])
    ∷ printf " PCI Address\t:  %s \n" (arg_s d.pci_address ∷ [])
    ∷ printf " Transport\t:  %s \n" (arg_s d.transport ∷ [])
    ∷ printf " Size\t\t:  %llu Sectors, %s \n" (
        arg_u d.size
        ∷ arg_s (some (size_text (d.q_data.logical_block_size * d.size % 2 ^ 64)))
        ∷ [])
    ∷ printf " Range\t\t:  %d \n" (arg_d d.range ∷ [])
    ∷ printf " Extent Range\t:  %d \n" (arg_d d.ext_range ∷ [])
    ∷ printf " Capability\t:  %#x \n" (arg_d d.capability ∷ [])
    ∷ printf " Queue Depth\t:  %d \n" (arg_d d.queue_depth ∷ [])
    ∷ printf " EH Timeout\t:  %d \n" (arg_d d.eh_timeout ∷ [])
    ∷ printf " State\t\t:  %-8s \n" (arg_s d.state ∷ [])
    ∷ printf " Controller ID\t:  %d\t\n" (arg_d d.cntlid ∷ [])
    ∷ printf " Controller Type:  %s   \n" (arg_s d.cntrltype ∷ [])
    ∷ printf " KATO\t\t:  %d   \n" (arg_d d.kato ∷ [])
    ∷ printf " SQ Size\t:  %d\t\n" (arg_d d.sqsize ∷ [])
    ∷ printf " UUID\t\t:  %-64s \n" (arg_s (some d.uuid) ∷ [])
    ∷ printf " NSID\t\t:  %-64s \n" (arg_s (some d.nsid) ∷ [])
    ∷ printf " WWID\t\t:  %-64s \n" (arg_s d.wwid ∷ [])
    ∷ printf " NGUID\t\t:  %-64s \n" (arg_s (some d.nguid) ∷ [])
    ∷ printf " Alignment Offset :  %#llx \n" (arg_u d.alignment_offset ∷ [])
    ∷ printf " Discard Alignment:  %#llx \n" (arg_u d.discard_alignment ∷ [])
    ∷ printf " Discovery Controller Type\t: %s \n" (arg_s d.dctype ∷ [])
    ∷ printf " Namespace Utilization\t\t: %llu \n" (arg_u d.nuse ∷ [])
    ∷ print_scsi_queue_data d.q_data
    ∷ [])
