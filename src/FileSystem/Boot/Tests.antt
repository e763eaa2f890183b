-- ===== src/FileSystem/Boot/Tests.antt =====
-- A floppy disk is formatted, and read back.
use upanix_os.Base.{ℕ, ◌*◌, ◌<◌, ◌^◌, ◌≡◌, refl, List, true, arith, replicate}
use upanix_os.FileSystem.Table.{eoc, get_real_sector_number, get_table_sector_id}
use upanix_os.FileSystem.Table.Replace.{entry}
use upanix_os.FileSystem.Pool.Scan.{IsFree}
use upanix_os.FileSystem.Boot.{
  BootBlock, Drive, Sectors, valid, geometry_of, init_boot_block, read_fs_boot_block, format,
}
use upanix_os.FileSystem.Boot.Format.{
  read_fs_boot_block-format, format_fits, mounted, format-IsFree,
}

abbrev floppy : Drive
floppy = record {
  is_floppy = true;
  sectors_per_track = 18;
  no_of_heads = 2;
  size_in_sectors = 2880;
}

abbrev root_words : List ℕ
root_words = replicate 128 1

unformatted_block : BootBlock
unfolding init_boot_block
unformatted_block = record (init_boot_block floppy) { fs_table_size = 0 }

unformatted : Sectors
unformatted = record {
  boot = record { block = unformatted_block; byte_510 = 0; byte_511 = 0 };
  words = λ s. replicate 128 7;
}

table_of_floppy : (init_boot_block floppy).fs_table_size ≡ 22
unfolding init_boot_block
table_of_floppy = refl

read_fs_boot_block-format_example :
    read_fs_boot_block floppy (format floppy root_words unformatted).boot
    ≡ valid (init_boot_block floppy)
read_fs_boot_block-format_example =
    read_fs_boot_block-format floppy root_words unformatted (omega arith) (omega arith)

format_fits_example :
    let g = geometry_of (init_boot_block floppy) in
    (g.fs_table_size < 2 ^ 25)
    × ((i : ℕ) → i < g.fs_table_size → get_table_sector_id g i < get_real_sector_number g 0)
    × ((s : ℕ) → s < g.fs_table_size * 128 → get_real_sector_number g s < 2880)
format_fits_example = format_fits floppy (omega arith) (omega arith)

format-IsFree_example :
    (entry (mounted floppy root_words unformatted) 0 ≡ eoc)
    × ((r : ℕ)
        → 0 < r
        → r < (init_boot_block floppy).fs_table_size * 128
        → IsFree (mounted floppy root_words unformatted) r)
format-IsFree_example = format-IsFree floppy root_words unformatted (omega arith) (omega arith)
