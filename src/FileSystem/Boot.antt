-- ===== src/FileSystem/Boot.antt =====
-- The boot block of filesystem/FileSystem.cpp, written by `Format` and checked by `ReadFSBootBlock`.
--
-- A boot sector is what the code copies to and from its 512 bytes: the block, and the two bytes of
-- the signature at 510. `Format` fills table sectors and the root directory's sector with words.
pub mod Format
mod Tests
use upanix_os.Base.{
  ℕ, zero, suc, ◌+◌, ◌-◌, ◌/◌, ◌%◌, ◌^◌, Bool, true, false, List, [], ◌∷◌, ◌==◌, ◌||◌, not,
  if◌then◌else◌, replicate,
}
use upanix_os.FileSystem.Table.{
  Geometry, eoc, entries_per_table_sector, get_real_sector_number, update,
}

abbrev pub media_removable : ℕ
media_removable = 0xF0

abbrev pub media_fixed : ℕ
media_fixed = 0xF8

-- `BootBlock`
pub record BootBlock : Type 0 where
  pub jmp_boot : ℕ × ℕ × ℕ
  pub media : ℕ
  pub sec_per_trk : ℕ
  pub num_heads : ℕ
  pub bytes_per_sec : ℕ
  pub tot_sec32 : ℕ
  pub hidd_sec : ℕ
  pub rsvd_sec_cnt : ℕ
  pub fs_table_size : ℕ
  pub ext_flags : ℕ
  pub fs_ver : ℕ
  pub fs_info : ℕ
  pub boot_sig : ℕ
  pub vol_id : ℕ
  pub used_sectors : ℕ

-- What the file system asks of its drive.
pub record Drive : Type 0 where
  pub is_floppy : Bool
  pub sectors_per_track : ℕ
  pub no_of_heads : ℕ
  pub size_in_sectors : ℕ

abbrev pub geometry_of : BootBlock → Geometry
geometry_of b = record {
  bytes_per_sec = b.bytes_per_sec;
  rsvd_sec_cnt = b.rsvd_sec_cnt;
  fs_table_size = b.fs_table_size;
}

-- `FileSystem::InitBootBlock`, but for the volume label. 16-bit fields take what is left of a value
-- modulo 2 ^ 16, and the subtractions wrap.
pub init_boot_block : Drive → BootBlock
init_boot_block d = record {
  jmp_boot = (0xEB, 0xFE, 0x90);
  bytes_per_sec = 0x200;
  rsvd_sec_cnt = 2;
  media = if d.is_floppy then media_removable else media_fixed;
  sec_per_trk = d.sectors_per_track % 2 ^ 16;
  num_heads = d.no_of_heads % 2 ^ 16;
  hidd_sec = 0;
  tot_sec32 = d.size_in_sectors;
  ext_flags = 0x0080;
  fs_ver = 0x0100;
  fs_info = 1;
  boot_sig = 0x29;
  vol_id = 0x01;
  used_sectors = 1;
  fs_table_size = (d.size_in_sectors + 2 ^ 32 - 2 - 1) % 2 ^ 32 / (entries_per_table_sector + 1);
}

pub record BootSector : Type 0 where
  pub block : BootBlock
  pub byte_510 : ℕ
  pub byte_511 : ℕ

-- `FileSystem::WriteFSBootBlock`
pub write_fs_boot_block : BootBlock → BootSector
write_fs_boot_block b = record { block = b; byte_510 = 0x55; byte_511 = 0xAA }

-- The checks of `ReadFSBootBlock`, by what each refuses.
pub data Invalid : Type 0 where
  bpb_signature boot_signature tot_sec32 fs_table_size bytes_per_sec jmp_boot media ext_flags fs_ver
        fs_info vol_id :
      Invalid

pub data Checked : Type 0 where
  valid : BootBlock → Checked
  invalid : Invalid → Checked

abbrev ne : ℕ → ℕ → Bool
ne a b = not (a == b)

-- `FileSystem::ReadFSBootBlock`
pub read_fs_boot_block : Drive → BootSector → Checked
read_fs_boot_block d s =
    let b = s.block in
    if ne s.byte_510 0x55 || ne s.byte_511 0xAA
    then invalid bpb_signature
    else if ne b.boot_sig 0x29
    then invalid boot_signature
    else if ne b.tot_sec32 d.size_in_sectors
    then invalid tot_sec32
    else if b.fs_table_size == 0
    then invalid fs_table_size
    else if ne b.bytes_per_sec 0x200
    then invalid bytes_per_sec
    else if ne b.jmp_boot.0 0xEB || ne b.jmp_boot.1 0xFE || ne b.jmp_boot.2 0x90
    then invalid jmp_boot
    else if (if d.is_floppy then ne b.media 0xF0 else false)
    then invalid media
    else if ne b.ext_flags 0x0080
    then invalid ext_flags
    else if ne b.fs_ver 0x0100
    then invalid fs_ver
    else if ne b.fs_info 1
    then invalid fs_info
    else if ne b.vol_id 0x01
    then invalid vol_id
    else valid b

-- What is on a drive: the boot sector, sector 1, and all others by their words.
pub record Sectors : Type 0 where
  pub boot : BootSector
  pub words : ℕ → List ℕ

-- The words of the table sector that `Format` writes in round `i`.
abbrev pub blank_table : ℕ → List ℕ
blank_table i = (if i == 0 then eoc else 0) ∷ replicate 127 0

-- The loop of `Format` over the table sectors.
format_table : BootBlock → ℕ → ℕ → (ℕ → List ℕ) → ℕ → List ℕ
format_table b zero i words = words
format_table b (suc left) i words =
    format_table b left (i + 1) (update words ((i + b.rsvd_sec_cnt + 1) % 2 ^ 32) (blank_table i))

-- `FileSystem::Format`. `root` is the words of the root directory's sector, which
-- `Node::InitAsRoot` makes.
pub format : Drive → List ℕ → Sectors → Sectors
unfolding init_boot_block format_table write_fs_boot_block
format d root s =
    let b = init_boot_block d in
    record {
      boot = write_fs_boot_block b;
      words =
          update (format_table b b.fs_table_size 0 s.words)
            (get_real_sector_number (geometry_of b) 0) root;
    }
