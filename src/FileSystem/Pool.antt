-- ===== src/FileSystem/Pool.antt =====
-- The pool of free sectors in filesystem/FileSystem.cpp: `AllocateSector`, `LoadFreeSectors`,
-- `AddToFreePoolCache` and `FileSystem_DeAllocateSector`.
--
-- `_freePoolQueue` is a `upan::queue<unsigned>` of another library, taken as `Queue`: its operations
-- with what they do to the sequence of numbers that it holds. The pool has been allocated.
pub mod Scan
pub mod Alloc
pub mod Stale
mod Tests
use upanix_os.Base.{
  ℕ, zero, suc, ◌+◌, ◌-◌, ◌*◌, ◌%◌, ◌^◌, ◌≡◌, Bool, true, false, List, [], ◌∷◌, ◌++◌, ltb, ◌==◌,
  if◌then◌else◌,
}
use upanix_os.FileSystem.Table.{
  Block, Table, Error, no_free_sectors, Result, ok, err, eoc, binary_search, set_sector_entry_value,
  get_sector_entry_value,
}

pub record Queue : Type 1 where
  pub Q : Type 0
  pub contents : Q → List ℕ
  pub empty : Q → Bool
  pub full : Q → Bool
  pub push_back : Q → ℕ → Q × Bool
  pub front : Q → ℕ
  pub pop_front : Q → Q
  pub empty_nil : (q : Q) → contents q ≡ [] → empty q ≡ true
  pub empty_cons : (q : Q) (x : ℕ) (xs : List ℕ) → contents q ≡ x ∷ xs → empty q ≡ false
  pub pushed :
      (q : Q) (x : ℕ) → (push_back q x).1 ≡ true → contents (push_back q x).0 ≡ contents q ++ x ∷ []
  pub refused :
      (q : Q) (x : ℕ) → (push_back q x).1 ≡ false → contents (push_back q x).0 ≡ contents q
  pub front_head : (q : Q) (x : ℕ) (xs : List ℕ) → contents q ≡ x ∷ xs → front q ≡ x
  pub pop_tail : (q : Q) (x : ℕ) (xs : List ℕ) → contents q ≡ x ∷ xs → contents (pop_front q) ≡ xs

-- The words of `n` sectors from `s` on, as `DiskDrive::Read` puts them into the buffer.
abbrev pub read_sectors : (ℕ → List ℕ) → ℕ → ℕ → List ℕ
read_sectors disk s zero = []
read_sectors disk s (suc n) = disk s ++ read_sectors disk (s + 1) n

abbrev pub max_read : ℕ
max_read = 8

module _ (𝒬 : Queue) where
  open 𝒬 use {Q, contents, empty, full, push_back, front, pop_front}

  -- The loops over the words of a table sector, or of several: the ids of those that are free go to
  -- the pool, up to the first that is refused. `id` is the first word's sector.
  pub scan : List ℕ → ℕ → Q → Q × Bool
  scan [] id q = (q, false)
  scan (w ∷ ws) id q =
      let (q', pushed) = push_back q (id % 2 ^ 32) in
      let next = scan ws (id + 1) q' in
      let skip = scan ws (id + 1) q in
      if w % 2 ^ 28 == 0 then (if pushed then next else (q', true)) else skip

  -- The first pass, over the cache.
  pub scan_cache : List Block → Q → Q × Bool
  unfolding scan
  scan_cache [] q = (q, false)
  scan_cache (b ∷ blocks) q =
      let (q', stop) = scan b.sector_block (b.id * 128) q in
      let rest = scan_cache blocks q' in if stop then (q', true) else rest

  -- The second pass, over the table sectors on the drive from `i` on, 8 at a time. A table sector
  -- that is cached is left out where a read would begin with it. Each round moves `i` on.
  pub scan_disk : ℕ → Table → ℕ → Q → Q
  unfolding scan
  scan_disk zero t i q = q
  scan_disk (suc fuel) t i q =
      let left = t.fs_table_size - i in
      let n = if ltb max_read left then max_read else left in
      let (q', stop) =
        scan (read_sectors t.disk ((i + t.rsvd_sec_cnt + 1) % 2 ^ 32) n) (i * 128) q in
      let cached = scan_disk fuel t (i + 1) q in
      let rest = scan_disk fuel t (i + n) q' in
      if ltb i t.fs_table_size
      then (if (binary_search t.cache i).0 then cached else if stop then q' else rest)
      else q

  pub after_cache : Table → Q × Bool → Q
  unfolding scan_disk
  after_cache t (q, true) = q
  after_cache t (q, false) = scan_disk t.fs_table_size t 0 q

  -- `FileSystem::LoadFreeSectors`
  pub load_free_sectors : Table → Q → Q
  unfolding scan_cache after_cache
  load_free_sectors t q = if full q then q else after_cache t (scan_cache t.cache q)

  with_table : ℕ → Q → Result Table → Result (ℕ × Table × Q)
  with_table id q (err e) = err e
  with_table id q (ok t) = ok (id, t, q)

  take_front : Table → Q → Result (ℕ × Table × Q)
  unfolding with_table
  take_front t q =
      if empty q
      then err no_free_sectors
      else with_table (front q) (pop_front q) (set_sector_entry_value (front q) eoc t)

  -- `FileSystem::AllocateSector`
  pub allocate_sector : Table → Q → Result (ℕ × Table × Q)
  unfolding load_free_sectors take_front
  allocate_sector t q = take_front t (if empty q then load_free_sectors t q else q)

  set_free : ℕ → Q → Result (ℕ × Table) → Result (ℕ × Table × Q)
  unfolding with_table
  set_free id q (err e) = err e
  set_free id q (ok (next, t)) = with_table next (push_back q id).0 (set_sector_entry_value id 0 t)

  -- `FileSystem_DeAllocateSector`: a sector that the pool has no room for is not remembered.
  pub deallocate_sector : ℕ → Table → Q → Result (ℕ × Table × Q)
  unfolding set_free
  deallocate_sector id t q = set_free id q (get_sector_entry_value id t)
