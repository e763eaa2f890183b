-- ===== src/FileSystem/Boot/Format.antt =====
-- What `Format` makes of a drive: whether it can be mounted, and its empty table.
use upanix_os.Base.{
  ℕ, zero, suc, ◌+◌, ◌*◌, ◌/◌, ◌%◌, ◌^◌, ◌≤◌, ◌<◌, ◌≡◌, refl, ap, ◌∙◌, ◌≢◌, ◌⊎◌, inl, inr, List, [],
  arith, length, get_or, replicate, ◌==◌, if◌then◌else◌, ltb, Bool-cases, ==_iff,
}
use upanix_os.FileSystem.Table.{Table, eoc, get_real_sector_number, get_table_sector_id, update}
use upanix_os.FileSystem.Table.Cached.{find_block}
use upanix_os.FileSystem.Table.Words.{Inv}
use upanix_os.FileSystem.Table.Replace.{entry}
use upanix_os.FileSystem.Pool.Scan.{IsSized, IsMounted, IsFree, IsFlushed}
use upanix_os.FileSystem.Boot.{
  BootBlock, BootSector, Drive, Sectors, valid, invalid, fs_table_size, geometry_of,
  init_boot_block, write_fs_boot_block, read_fs_boot_block, format_table, format, blank_table,
}

-- On a drive of less than 2 ^ 32 sectors, the checks accept what `Format` writes, if the drive has room for a
-- table sector and its 128 sectors, 132 sectors in all. A smaller drive of at least 3 sectors is formatted with an empty
-- table, which the checks refuse.
pub read_fs_boot_block-format :
    (d : Drive) (root : List ℕ) (s : Sectors)
    → 3 ≤ d.size_in_sectors
    → d.size_in_sectors < 2 ^ 32
    → read_fs_boot_block d (format d root s).boot
      ≡ (if ltb d.size_in_sectors 132 then invalid fs_table_size else valid (init_boot_block d))
unfolding read_fs_boot_block format init_boot_block
read_fs_boot_block-format d root s lo hi = ground arith

-- A block that the checks accept is read back unchanged after `WriteFSBootBlock`.
pub read_fs_boot_block-write_fs_boot_block :
    (d : Drive) (s : BootSector) (b : BootBlock)
    → read_fs_boot_block d s ≡ valid b
    → read_fs_boot_block d (write_fs_boot_block b) ≡ valid b
unfolding read_fs_boot_block write_fs_boot_block
read_fs_boot_block-write_fs_boot_block d s b e = ground arith

-- For a drive of at least 3 and less than 2 ^ 32 sectors, the table has less than 2 ^ 25 sectors, each of them
-- lies before the sectors that the table stands for, and those lie on the drive.
pub format_fits :
    (d : Drive)
    → 3 ≤ d.size_in_sectors
    → d.size_in_sectors < 2 ^ 32
    → let g = geometry_of (init_boot_block d) in
      (g.fs_table_size < 2 ^ 25)
      × ((i : ℕ) → i < g.fs_table_size → get_table_sector_id g i < get_real_sector_number g 0)
      × ((s : ℕ) → s < g.fs_table_size * 128 → get_real_sector_number g s < d.size_in_sectors)
unfolding init_boot_block get_real_sector_number get_table_sector_id
format_fits d lo hi = (omega arith, λ i h. omega arith, λ s h. omega arith)

module _ (b : BootBlock) (reserved : b.rsvd_sec_cnt < 2 ^ 16) where
  -- The loop leaves its own words in the table sectors from `i` on, and the earlier ones alone.
  format_table-words :
      (left i id : ℕ) (words : ℕ → List ℕ)
      → i + left < 2 ^ 25
      → id < i + left
      → format_table b left i words (get_table_sector_id (geometry_of b) id)
        ≡ (if ltb id i then words (get_table_sector_id (geometry_of b) id) else blank_table id)
  unfolding format_table get_table_sector_id
  format_table-words zero i id words h lt = ground arith
  format_table-words (suc left) i id words h lt =
      format_table-words left (i + 1) id _ (omega arith) (omega arith) ∙ round
    where
      at : ℕ → ℕ
      at k = (k + 1 + b.rsvd_sec_cnt) % 2 ^ 32

      round :
          (if ltb id (i + 1)
            then update words ((i + b.rsvd_sec_cnt + 1) % 2 ^ 32) (blank_table i) (at id)
            else blank_table id)
          ≡ (if ltb id i then words (at id) else blank_table id)
      round = elim (Bool-cases (id == i)) [
        | inr e ↦ ground arith
        | inl e ↦ ground (arith, ap blank_table ((==_iff id i).0 e))
      ]

  length-format_table :
      (left i r : ℕ) (words : ℕ → List ℕ)
      → ((r : ℕ) → length (words r) ≡ 128)
      → length (format_table b left i words r) ≡ 128
  unfolding format_table
  length-format_table zero i r words h = h r
  length-format_table (suc left) i r words h =
      length-format_table left (i + 1) r _ (λ k. ground (arith, h k))

-- The drive's table as `Mount` finds it: nothing is cached.
abbrev pub mounted : Drive → List ℕ → Sectors → Table
mounted d root s = record {
  geometry = geometry_of (init_boot_block d);
  used_sectors = (init_boot_block d).used_sectors;
  cache = [];
  disk = (format d root s).words;
}

reserved_sectors : (d : Drive) → (init_boot_block d).rsvd_sec_cnt < 2 ^ 16
unfolding init_boot_block
reserved_sectors d = omega arith

mounted-words :
    (d : Drive) (root : List ℕ) (s : Sectors) (id : ℕ)
    → 3 ≤ d.size_in_sectors
    → d.size_in_sectors < 2 ^ 32
    → id < (init_boot_block d).fs_table_size
    → (format d root s).words (get_table_sector_id (geometry_of (init_boot_block d)) id)
      ≡ blank_table id
unfolding format
mounted-words d root s id lo hi h =
    let b = init_boot_block d in
    let fits = format_fits d lo hi in
    let apart = fits.1 id h in
    ground (arith, format_table-words b (reserved_sectors d) b.fs_table_size 0 id s.words)

table_not_empty :
    (d : Drive)
    → 132 ≤ d.size_in_sectors
    → d.size_in_sectors < 2 ^ 32
    → 0 < (init_boot_block d).fs_table_size
unfolding init_boot_block
table_not_empty d lo hi = omega arith

get_or-replicate : (n i : ℕ) → get_or {A = ℕ} (replicate n 0) i 0 ≡ 0
get_or-replicate zero i = refl
get_or-replicate (suc n) zero = refl
get_or-replicate (suc n) (suc i) = get_or-replicate n i

blank_word : (i j : ℕ) → (i ≢ 0) ⊎ (j ≢ 0) → get_or (blank_table i) j 0 ≡ 0
blank_word i zero h = ground arith
blank_word i (suc j) h = get_or-replicate 127 j

blank_entry : (r : ℕ) → 0 < r → get_or (blank_table (r / 128)) (r % 128) 0 % 2 ^ 28 ≡ 0
blank_entry r pos = ap (λ w. w % 2 ^ 28) (blank_word (r / 128) (r % 128) (split (r % 128) refl))
  where
    split : (o : ℕ) → r % 128 ≡ o → (r / 128 ≢ 0) ⊎ (r % 128 ≢ 0)
    split zero e = inl (omega arith)
    split (suc o) e = inr (omega arith)

-- A drive of at least 132 and less than 2 ^ 32 sectors that was formatted and is mounted has the first sector in use,
-- for the root directory, and every other sector of its table free.
pub format-IsFree :
    (d : Drive) (root : List ℕ) (s : Sectors)
    → 132 ≤ d.size_in_sectors
    → d.size_in_sectors < 2 ^ 32
    → (entry (mounted d root s) 0 ≡ eoc)
      × ((r : ℕ)
          → 0 < r
          → r < (init_boot_block d).fs_table_size * 128
          → IsFree (mounted d root s) r)
unfolding find_block
format-IsFree d root s lo hi = (
  rw (mounted-words d root s 0 (omega arith) hi (table_not_empty d lo hi)),
  λ r pos lt. (
    lt,
    rw (mounted-words d root s (r / 128) (omega arith) hi (omega arith)) (blank_entry r pos),
  ),
)

sized :
    (d : Drive)
    → 3 ≤ d.size_in_sectors
    → d.size_in_sectors < 2 ^ 30
    → IsSized (geometry_of (init_boot_block d))
unfolding init_boot_block
sized d lo h = record { sector_size = refl; fits = omega arith }

-- The table of a formatted drive of at least 3 and less than 2 ^ 30 sectors, 512 GiB, of 128 words each, is well formed, its size in bytes fits 32 bits,
-- and nothing that is cached waits to be written back.
pub format-Inv :
    (d : Drive) (root : List ℕ) (s : Sectors)
    → 3 ≤ d.size_in_sectors
    → d.size_in_sectors < 2 ^ 30
    → length root ≡ 128
    → ((r : ℕ) → length (s.words r) ≡ 128)
    → Inv (mounted d root s) × IsMounted (mounted d root s) × IsFlushed (mounted d root s)
unfolding find_block format
format-Inv d root s lo hi hr hs = (
  record {
    sorted = λ i j lt h. absurd (omega arith);
    clean = λ id b e z. absurd (ground arith);
    small = λ id b e. absurd (ground arith);
    reserved = reserved_sectors d;
    whole_disk = λ r.
        let b = init_boot_block d in
        ground (arith, length-format_table b (reserved_sectors d) b.fs_table_size 0 r s.words hs);
    whole = λ id b e. absurd (ground arith);
  },
  record { sized = sized d lo hi; in_table = λ id b e. absurd (ground arith) },
  λ id b e. absurd (ground arith),
)
