-- ===== src/FileSystem/Table.antt =====
-- The sector allocation table of filesystem/FileSystem.cpp: one 28-bit entry for each data sector,
-- kept in table sectors of 128 entries, of which `_fsTableCache` holds some in the order of their
-- block ids. `x & EOC` is `x % 2 ^ 28`, and `x & 0xF0000000` is what it leaves.
--
-- The state is what the functions of the table touch: the fields of the boot block, the cache, and
-- the drive as a store of sectors, each the 128 words that the code casts it to.
pub mod Find
pub mod Cached
pub mod Words
pub mod Flush
pub mod Entry
pub mod Lookup
pub mod Replace
pub mod Access
mod Tests
use upanix_os.Base.{
  ℕ, zero, suc, ◌+◌, ◌-◌, ◌*◌, ◌/◌, ◌%◌, ◌^◌, Bool, true, false, List, [], ◌∷◌, Option, none, some,
  ltb, leb, ◌==◌, if◌then◌else◌, length, get_or, set, drop, insert_at,
}

abbrev pub entries_per_table_sector : ℕ
entries_per_table_sector = 128

abbrev pub eoc : ℕ
eoc = 0x0FFFFFFF

abbrev pub max_sectors_in_table_cache : ℕ
max_sectors_in_table_cache = 2048

abbrev pub block_id : ℕ → ℕ
block_id sector_id = sector_id / entries_per_table_sector

abbrev pub block_offset : ℕ → ℕ
block_offset sector_id = sector_id % entries_per_table_sector

-- `SectorBlockEntry`
pub record Block : Type 0 where
  pub sector_block : List ℕ
  pub id : ℕ
  pub read_count : ℕ
  pub write_count : ℕ

abbrev pub no_block : Block
no_block = record { sector_block = []; id = 0; read_count = 0; write_count = 0 }

-- The fields of `BootBlock` that the table goes by.
pub record Geometry : Type 0 where
  pub bytes_per_sec : ℕ
  pub rsvd_sec_cnt : ℕ
  pub fs_table_size : ℕ

pub record Table : Type 0 where
  pub geometry : Geometry
  pub open geometry use *
  pub used_sectors : ℕ
  pub cache : List Block
  pub disk : ℕ → List ℕ

-- An exception that the code throws, by its message.
pub data Error : Type 0 where
  invalid_cluster not_in_cache no_free_sectors : Error

pub data Result {ℓ} (A : Type ℓ) : Type ℓ where
  ok : A → Result A
  err : Error → Result A

abbrev pub block_at : List Block → ℕ → Block
block_at blocks i = get_or blocks i no_block

-- The loop of `FSManager_BinarySearch`. `top` is `high + 1`, since `high` may be -1, and a `pos` of
-- -1 is `none`. A loop that has not ended after `fuel` rounds is `none`.
pub search_loop : ℕ → List Block → ℕ → ℕ → ℕ → Option ℕ → Option (Bool × Option ℕ)
search_loop zero blocks target low top pos = if ltb low top then none else some (false, pos)
search_loop (suc fuel) blocks target low top pos =
    let mid = (low + (top - 1)) / 2 in
    let left = search_loop fuel blocks target low mid (some mid) in
    let right = search_loop fuel blocks target (mid + 1) top (some (mid + 1)) in
    if ltb low top
    then (if target == (block_at blocks mid).id
        then some (true, some mid)
        else if ltb target (block_at blocks mid).id
        then left
        else right)
    else some (false, pos)

-- What follows the loop.
clamp_pos : ℕ → Option ℕ → ℕ
clamp_pos size none = 0
clamp_pos size (some p) = if leb size p then size else p

-- Of a loop that does not end: an index that no block has.
finish : ℕ → Option (Bool × Option ℕ) → Bool × ℕ
unfolding clamp_pos
finish size none = (true, size)
finish size (some (true, none)) = (true, 0)
finish size (some (true, some p)) = (true, p)
finish size (some (false, pos)) = (false, clamp_pos size pos)

unfoldable pub binary_search : List Block → ℕ → Bool × ℕ
unfolding search_loop finish
binary_search blocks target =
    finish (length blocks) (search_loop (length blocks) blocks target 0 (length blocks) none)

-- `FileSystem::GetTableSectorId`
unfoldable pub get_table_sector_id : Geometry → ℕ → ℕ
get_table_sector_id g id = (id + 1 + g.rsvd_sec_cnt) % 2 ^ 32

-- `FileSystem::GetRealSectorNumber`
unfoldable pub get_real_sector_number : Geometry → ℕ → ℕ
get_real_sector_number g id = (id + 1 + g.rsvd_sec_cnt + g.fs_table_size) % 2 ^ 32

-- `SectorBlockEntry::Load`
pub load : Geometry → (ℕ → List ℕ) → ℕ → Block
unfolding get_table_sector_id
load g disk sector_id = record {
  sector_block = disk (get_table_sector_id g (block_id sector_id));
  id = block_id sector_id;
  read_count = 0;
  write_count = 0;
}

-- `SectorBlockEntry::Read`
pub read : Block → ℕ → ℕ × Block
read b sector_id = (
  get_or b.sector_block (block_offset sector_id) 0 % 2 ^ 28,
  record b { read_count = (b.read_count + 1) % 2 ^ 32 },
)

-- `SectorBlockEntry::Write`
pub write : Block → ℕ → ℕ → Block
write b sector_id value =
    let index = block_offset sector_id in
    let old = get_or b.sector_block index 0 in
    record b {
      sector_block = set b.sector_block index (old - old % 2 ^ 28 + value % 2 ^ 28);
      write_count = (b.write_count + 1) % 2 ^ 32;
    }

abbrev pub update : (ℕ → List ℕ) → ℕ → List ℕ → ℕ → List ℕ
update disk at words s = if s == at then words else disk s

-- The loop of `FlushTableCache`, over the first `n` blocks.
pub flush_blocks : Geometry → ℕ → List Block → (ℕ → List ℕ) → ℕ → List ℕ
flush_blocks g zero blocks disk = disk
flush_blocks g (suc n) [] disk = disk
flush_blocks g (suc n) (b ∷ blocks) disk = flush_blocks g n blocks (
    if b.write_count == 0
    then disk
    else update disk ((b.id + g.rsvd_sec_cnt + 1) % 2 ^ 32) b.sector_block)

-- `FileSystem::FlushTableCache`, of a size that is not negative.
pub flush_table_cache : ℕ → Table → Table
unfolding flush_blocks
flush_table_cache flush_size t =
    let size = length t.cache in
    let n = if ltb size flush_size then size else flush_size in
    record t {
      disk = flush_blocks t.geometry n t.cache t.disk;
      cache = if ltb n size then drop n t.cache else t.cache;
    }

-- The part of `AddToTableCache` that follows the eviction.
insert_block : ℕ → Table → Table
unfolding binary_search load
insert_block sector_id t =
    let (found, pos) = binary_search t.cache (block_id sector_id) in
    if found
    then t
    else record t { cache = insert_at pos (load t.geometry t.disk sector_id) t.cache }

-- `FileSystem::AddToTableCache`
pub add_to_table_cache : ℕ → Table → Table
unfolding insert_block flush_table_cache
add_to_table_cache sector_id t =
    insert_block sector_id
      (if length t.cache == max_sectors_in_table_cache then flush_table_cache 1 t else t)

-- `FileSystem::GetSectorEntryFromCache`: the index of the block that the pointer is to.
pub get_sector_entry_from_cache : ℕ → Table → Option ℕ
unfolding binary_search
get_sector_entry_from_cache sector_id t =
    let (found, pos) = binary_search t.cache (block_id sector_id) in
    if length t.cache == 0 then none else if found then some pos else none

-- The lookup that `GetSectorEntryValue` and `SetSectorEntryValue` share: from the cache, and if it
-- is not there, once more after the block has been added.
pub cached : ℕ → Table → Table × Option ℕ
unfolding get_sector_entry_from_cache add_to_table_cache
cached sector_id t =
    let again = add_to_table_cache sector_id t in
    elim (get_sector_entry_from_cache sector_id t) [
      | some p ↦ (t, some p)
      | none ↦ (again, get_sector_entry_from_cache sector_id again)
    ]

-- The range test of both. The product wraps at 32 bits.
abbrev pub cluster_limit : Geometry → ℕ
cluster_limit g = g.fs_table_size * g.bytes_per_sec % 2 ^ 32 / 4

read_entry : ℕ → Table × Option ℕ → Result (ℕ × Table)
unfolding read
read_entry sector_id (t, none) = err not_in_cache
read_entry sector_id (t, some p) =
    let (value, b) = read (block_at t.cache p) sector_id in
    ok (value, record t { cache = set t.cache p b })

-- `FileSystem::GetSectorEntryValue`
pub get_sector_entry_value : ℕ → Table → Result (ℕ × Table)
unfolding cached read_entry
get_sector_entry_value sector_id t =
    if ltb (cluster_limit t.geometry) sector_id
    then err invalid_cluster
    else read_entry sector_id (cached sector_id t)

-- `FileSystem::UpdateUsedSectors`
pub update_used_sectors : ℕ → Table → Table
update_used_sectors value t =
    if value == eoc
    then record t { used_sectors = (t.used_sectors + 1) % 2 ^ 32 }
    else if value == 0
    then record t { used_sectors = (t.used_sectors + 2 ^ 32 - 1) % 2 ^ 32 }
    else t

write_entry : ℕ → ℕ → Table × Option ℕ → Result Table
unfolding write
write_entry sector_id value (t, none) = err not_in_cache
write_entry sector_id value (t, some p) =
    ok (record t { cache = set t.cache p (write (block_at t.cache p) sector_id value) })

-- `FileSystem::SetSectorEntryValue`
pub set_sector_entry_value : ℕ → ℕ → Table → Result Table
unfolding cached write_entry update_used_sectors
set_sector_entry_value sector_id value t =
    if ltb (cluster_limit t.geometry) sector_id
    then err invalid_cluster
    else write_entry sector_id value (cached sector_id (update_used_sectors value t))
