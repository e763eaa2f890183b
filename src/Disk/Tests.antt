-- ===== src/Disk/Tests.antt =====
-- A drive with a dirty sector in its cache, and one whose cache is full; the theorems at the first.
use upanix_os.Base.{
  ℕ, ◌+◌, ◌<◌, ◌≤◌, ◌≡◌, refl, true, false, none, some, ◌⊎◌, inl, inr, [], ◌∷◌, arith, ◌==◌,
  Bool-cases, if◌then◌else◌,
}
use upanix_os.Disk.Cache.{Sector, elem}
use upanix_os.Disk.Drive.{DiskDrive, drive_read, drive_write, flush_dirty_cache_sectors}
use upanix_os.Disk.Coherent.{content, listed, IsCoherent}
use upanix_os.Disk.Write.{content-drive_write, disk-flush_dirty_cache_sectors}
use upanix_os.Disk.Read.{content-drive_read}

-- Sector 12 is cached and dirty.
abbrev drive : DiskDrive
drive = record {
  lba_start_sector = 10;
  enable_disk_cache = true;
  disk = λ k. k ∷ [];
  cache = record {
    tree = λ k. if k == 12 then some (99 ∷ []) else none;
    total_elements = 1;
    dirty_cache_list = 12 ∷ [];
    release_list = [];
    release_list_built = false;
  };
}

drive-IsCoherent : IsCoherent drive
unfolding elem
drive-IsCoherent = record {
  dirty_cached = λ k e. elim (Bool-cases (k == 12)) [
    | inl t ↦ rw t refl
    | inr n ↦ absurd (ground (arith, e, n))
  ];
  clean_same = λ k e. elim (Bool-cases (k == 12)) [
    | inl t ↦ absurd (ground (arith, e, t))
    | inr n ↦ rw n refl
  ];
  listed_cached = λ k e. absurd (ground (arith, e));
  listed_once = tt;
}

not_listed : (k : ℕ) → listed drive k ≡ false
unfolding elem
not_listed k = refl

abbrev buffer : ℕ → Sector
buffer i = i ∷ i ∷ []

abbrev blank : ℕ → Sector
blank i = []

-- Sectors 10 and 11 are new to the cache, 12 was found.
content-drive_write_example :
    (u : DiskDrive) × (drive_write 0 3 buffer drive ≡ some u)
    × IsCoherent u
    × (u.enable_disk_cache ≡ true)
    × ((i : ℕ) → i < 3 → content u (0 + 10 + i) ≡ buffer i)
    × ((j : ℕ) → (j < 0 + 10) ⊎ (0 + 10 + 3 ≤ j) → content u j ≡ content drive j)
content-drive_write_example =
    content-drive_write 0 3 buffer drive drive-IsCoherent refl (omega arith)
      (λ i lt. not_listed (0 + 10 + i))

-- Sectors 11 and 13 come from the disk, 12 from the cache.
content-drive_read_example :
    (u : DiskDrive) × (b : ℕ → Sector) × (drive_read 1 3 drive blank ≡ some (u, b))
    × IsCoherent u
    × (u.enable_disk_cache ≡ true)
    × ((j : ℕ) → content u j ≡ content drive j)
    × ((i : ℕ) → i < 3 → b (1 + 10 + i) ≡ content drive (1 + 10 + i))
content-drive_read_example =
    content-drive_read 1 3 blank drive drive-IsCoherent refl (omega arith)
      (λ i lt. not_listed (1 + 10 + i))

disk-flush_dirty_cache_sectors_example :
    (u : DiskDrive) × (flush_dirty_cache_sectors 1 drive ≡ some u)
    × IsCoherent u
    × (u.cache.dirty_cache_list ≡ [])
    × ((j : ℕ) → (content u j ≡ content drive j) × (u.disk j ≡ content drive j))
disk-flush_dirty_cache_sectors_example =
    disk-flush_dirty_cache_sectors 1 drive drive-IsCoherent refl (omega arith)

-- Sector 12 is cached, and the first that may be replaced.
abbrev full_drive : DiskDrive
full_drive = record drive {
  cache = record drive.cache {
    total_elements = 32;
    dirty_cache_list = [];
    release_list = 12 ∷ [];
    release_list_built = true;
  };
}

-- It is replaced by sector 11 in the same read that has found it and uses its value afterwards.
used_after_free : drive_read 1 3 full_drive blank ≡ none
unfolding drive_read
used_after_free = refl
