-- ===== src/Cmd/Help.antt =====
-- scsi_help.c and main's way to it.
use scsi_cli.Prelude.{List, Text, get_elem?, if_null, if◌then◌else◌, pos, text, ℤ}
use scsi_cli.Clib.Compare.{strncmp_eq}
use scsi_cli.Device.{general_help, list_help, stats_help, version}
use scsi_cli.World.{M, emit, pure, shown, ◌>>◌}

-- help_cmd. argv[2] is not NULL where argc > 2.
unfoldable pub help_cmd : List Text → M ℤ
help_cmd argv =
    if_null (get_elem? argv 2) (do emit (shown general_help); pure (pos 0))
      (λ topic. (do
        if strncmp_eq topic (text "list") 4 then emit (shown list_help) else pure tt
        if strncmp_eq topic (text "stats") 5 then emit (shown stats_help) else pure tt
        pure (pos 0)))

-- version_cmd
unfoldable pub version_cmd : M (Unit {0})
version_cmd = emit (shown version)
