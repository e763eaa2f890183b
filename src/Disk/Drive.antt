-- ===== src/Disk/Drive.antt =====
-- drivers/DeviceDrive.cpp: reads and writes of a drive through its cache. A use of a cached value that is no
-- longer in the tree is none.
use upanix_os.Base.{
  ℕ, zero, suc, ◌+◌, ◌-◌, ◌%◌, ◌^◌, Bool, true, false, Option, none, some, ltb, ◌==◌, ◌>>=◌,
  if◌then◌else◌,
}
use upanix_os.Disk.Cache.{
  Sector, DiskCache, is_some, cache_full, with_value, tree_insert, insert_to_dirty_list, take_dirty,
  replace_cache,
}
use mathlib.Core.Option

-- The drive: where it starts on its disk, and what stands on the disk.
pub record DiskDrive : Type 0 where
  pub lba_start_sector : ℕ
  pub enable_disk_cache : Bool
  pub disk : ℕ → Sector
  pub cache : DiskCache

-- RawWrite of one sector, of a device that answers
unfoldable pub raw_write : ℕ → Sector → DiskDrive → DiskDrive
raw_write k v d = record d { disk = λ j. if j == k then v else d.disk j }

-- RawWrite of `n` sectors from `k`
unfoldable pub raw_write_all : ℕ → ℕ → (ℕ → Sector) → DiskDrive → DiskDrive
unfolding raw_write
raw_write_all k zero buffer d = d
raw_write_all k (suc n) buffer d =
    raw_write_all (suc k) n (λ i. buffer (suc i)) (raw_write k (buffer 0) d)

-- Write of a sector that was found: through the pointer to the value
unfoldable pub store_found : ℕ → Sector → DiskDrive → Option DiskDrive
unfolding insert_to_dirty_list
store_found k v d =
    if is_some (d.cache.tree k)
    then some (record d { cache = insert_to_dirty_list k (with_value k (some v) d.cache) })
    else none

abbrev store_replacing :
    (DiskDrive → DiskDrive) → ℕ → Sector → DiskDrive → Bool × DiskCache → Bool × DiskDrive
unfolding raw_write
store_replacing fallback k v d (true, c) = (true, record (raw_write k v d) { cache = c })
store_replacing fallback k v d (false, c) =
    (false, fallback (record (raw_write k v d) { cache = c; enable_disk_cache = false }))

-- Write of a sector that was not found; `fallback` is the last RawWrite.
unfoldable pub store_missing : (DiskDrive → DiskDrive) → ℕ → Sector → DiskDrive → Bool × DiskDrive
unfolding cache_full replace_cache tree_insert insert_to_dirty_list raw_write
store_missing fallback k v d =
    if cache_full d.cache
    then store_replacing fallback k v d (replace_cache k v d.cache)
    else elim (tree_insert k v d.cache) [
      | none ↦ (false, record d { enable_disk_cache = false })
      | some c ↦ (true, record d { cache = insert_to_dirty_list k c })
    ]

-- The loops over the sectors before the first break and behind the last; `at` is the buffer by sector.
unfoldable pub store_run : (ℕ → Sector) → ℕ → ℕ → DiskDrive → Option DiskDrive
unfolding store_found
store_run at a zero d = some d
store_run at a (suc n) d = store_found a (at a) d >>= store_run at (suc a) n

unfoldable pub store_one :
    (ℕ → Bool)
    → (ℕ → DiskDrive → DiskDrive)
    → (ℕ → Sector)
    → ℕ
    → DiskDrive
    → Option (Bool × DiskDrive)
unfolding store_found store_missing
store_one found fallback at a d =
    if found a
    then Option.map (λ u. (true, u)) (store_found a (at a) d)
    else some (store_missing (fallback a) a (at a) d)

-- The loop between the breaks
unfoldable pub store_mixed :
    (ℕ → Bool) → (ℕ → DiskDrive → DiskDrive) → (ℕ → Sector) → ℕ → ℕ → DiskDrive → Option DiskDrive
unfolding store_one
store_mixed found fallback at a zero d = some d
store_mixed found fallback at a (suc n) d = store_one found fallback at a d >>= λ (go, u). elim go [
  | true ↦ store_mixed found fallback at (suc a) n u
  | false ↦ some u
]

-- uiFirstBreak and uiLastBreak after the first loop, over `n` sectors from `a`
unfoldable pub first_break : (ℕ → Bool) → ℕ → ℕ → ℕ
first_break found a zero = a
first_break found a (suc n) = if found a then first_break found (suc a) n else a

unfoldable pub last_break : (ℕ → Bool) → ℕ → ℕ → ℕ → ℕ
last_break found a zero l = l
last_break found a (suc n) l = last_break found (suc a) n (if found a then l else a)

-- The part of Write with the cache enabled, for the sectors from `start` and before `end`
unfoldable pub write_cached : (ℕ → Sector) → ℕ → ℕ → DiskDrive → Option DiskDrive
unfolding store_run store_mixed first_break last_break raw_write_all
write_cached buffer start end d =
    let found = λ (k : ℕ). is_some (d.cache.tree k) in
    let at = λ (k : ℕ). buffer (k - start) in
    let first = first_break found start (end - start) in
    let last = last_break found start (end - start) end in
    let fallback = λ (j : ℕ) (u : DiskDrive).
      raw_write_all first (suc (last - first)) (λ (i : ℕ). buffer (j - start + i)) u in
    store_run at start (first - start) d >>= λ d1.
    store_run at (suc last) (end - suc last) d1 >>= λ d2.
    if ltb first end then store_mixed found fallback at first (suc (last - first)) d2 else some d2

-- Write
unfoldable pub drive_write : ℕ → ℕ → (ℕ → Sector) → DiskDrive → Option DiskDrive
unfolding write_cached raw_write_all
drive_write sector n buffer d =
    let start = (sector + d.lba_start_sector) % 2 ^ 32 in
    if d.enable_disk_cache
    then write_cached buffer start ((start + n) % 2 ^ 32) d
    else some (raw_write_all start n buffer d)

-- The loop of FlushDirtyCacheSectors, at most `n` times, with a device that answers
unfoldable pub flush_loop : ℕ → DiskDrive → Option DiskDrive
unfolding take_dirty raw_write
flush_loop zero d = some d
flush_loop (suc n) d = elim (take_dirty d.cache) [
  | none ↦ some d
  | some (k, c) ↦ c.tree k >>= λ v. flush_loop n (raw_write k v (record d { cache = c }))
]

-- FlushDirtyCacheSectors with a count
unfoldable pub flush_dirty_cache_sectors : ℕ → DiskDrive → Option DiskDrive
unfolding flush_loop
flush_dirty_cache_sectors n d = if d.enable_disk_cache then flush_loop n d else some d

-- The buffer of a read: at each place what it holds there.
abbrev pub placed : ℕ → Sector → (ℕ → Sector) → ℕ → Sector
placed k v buffer j = if j == k then v else buffer j

-- Read of a sector that was found: through the pointer to the value
unfoldable pub load_found : ℕ → DiskCache → (ℕ → Sector) → Option (ℕ → Sector)
load_found k c buffer = Option.map (λ v. placed k v buffer) (c.tree k)

-- The loops over the sectors before the first break and behind the last; the buffer is by sector.
unfoldable pub load_run : DiskCache → ℕ → ℕ → (ℕ → Sector) → Option (ℕ → Sector)
unfolding load_found
load_run c a zero buffer = some buffer
load_run c a (suc n) buffer = load_found a c buffer >>= load_run c (suc a) n

-- RawRead of `n` sectors from `k`, of a device that answers
unfoldable pub raw_read_all : (ℕ → Sector) → ℕ → ℕ → (ℕ → Sector) → ℕ → Sector
raw_read_all disk k zero buffer = buffer
raw_read_all disk k (suc n) buffer = raw_read_all disk (suc k) n (placed k (disk k) buffer)

abbrev keep_replacing : DiskDrive → Bool × DiskCache → Bool × DiskDrive
keep_replacing d (true, c) = (true, record d { cache = c })
keep_replacing d (false, c) = (false, record d { cache = c; enable_disk_cache = false })

-- A sector that was not found comes into the cache.
unfoldable pub keep_missing : ℕ → Sector → DiskDrive → Bool × DiskDrive
unfolding cache_full replace_cache tree_insert
keep_missing k v d =
    if cache_full d.cache
    then keep_replacing d (replace_cache k v d.cache)
    else elim (tree_insert k v d.cache) [
      | none ↦ (false, record d { enable_disk_cache = false })
      | some c ↦ (true, record d { cache = c })
    ]

-- One sector between the breaks: whether the loop goes on, and the drive and the buffer then.
unfoldable pub load_one :
    (ℕ → Bool) → ℕ → DiskDrive → (ℕ → Sector) → Option (Bool × (DiskDrive × (ℕ → Sector)))
unfolding load_found keep_missing
load_one found a d buffer =
    if found a
    then Option.map (λ b. (true, (d, b))) (load_found a d.cache buffer)
    else (let (go, u) = keep_missing a (buffer a) d in some (go, (u, buffer)))

-- The loop between the breaks
unfoldable pub load_mixed :
    (ℕ → Bool) → ℕ → ℕ → DiskDrive → (ℕ → Sector) → Option (DiskDrive × (ℕ → Sector))
unfolding load_one
load_mixed found a zero d buffer = some (d, buffer)
load_mixed found a (suc n) d buffer = load_one found a d buffer >>= λ (go, (u, b)). elim go [
  | true ↦ load_mixed found (suc a) n u b
  | false ↦ some (u, b)
]

-- The part of Read with the cache enabled, for the sectors from `start` and before `end`
unfoldable pub read_cached : ℕ → ℕ → DiskDrive → (ℕ → Sector) → Option (DiskDrive × (ℕ → Sector))
unfolding load_run load_mixed raw_read_all first_break last_break
read_cached start end d buffer =
    let found = λ (k : ℕ). is_some (d.cache.tree k) in
    let first = first_break found start (end - start) in
    let last = last_break found start (end - start) end in
    load_run d.cache start (first - start) buffer >>= λ b1.
    load_run d.cache (suc last) (end - suc last) b1 >>= λ b2.
    if ltb first end
    then load_mixed found first (suc (last - first)) d
        (raw_read_all d.disk first (suc (last - first)) b2)
    else some (d, b2)

-- Read; the buffer that comes in and the one that goes out are by sector.
unfoldable pub drive_read : ℕ → ℕ → DiskDrive → (ℕ → Sector) → Option (DiskDrive × (ℕ → Sector))
unfolding read_cached raw_read_all
drive_read sector n d buffer =
    let start = (sector + d.lba_start_sector) % 2 ^ 32 in
    if d.enable_disk_cache
    then read_cached start ((start + n) % 2 ^ 32) d buffer
    else some (d, raw_read_all d.disk start n buffer)
