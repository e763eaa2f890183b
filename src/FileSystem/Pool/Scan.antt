-- ===== src/FileSystem/Pool/Scan.antt =====
-- What the two passes of `LoadFreeSectors` put into the pool.
use mathlib.Core.Path.{subst}
use upanix_os.Base.{
  ℕ, zero, suc, ◌+◌, ◌-◌, ◌*◌, ◌/◌, ◌%◌, ◌^◌, ◌≤◌, ◌<◌, ◌≡◌, Bool, true, false, List, [], ◌∷◌, some,
  arith, length, length-append, get_or, get_or-append, All, All-append, All-map, ltb, ◌==◌,
  if◌then◌else◌, Bool-cases, if_cases, inl, inr, Option-cases,
}
use upanix_os.FileSystem.Table.{Block, Geometry, Table, get_table_sector_id, binary_search}
use upanix_os.FileSystem.Table.Cached.{find_block, find_block_self, find_block-tail, IsSorted-tail}
use upanix_os.FileSystem.Table.Find.{IsSorted}
use upanix_os.FileSystem.Table.Words.{Inv, words}
use upanix_os.FileSystem.Table.Replace.{entry}
use upanix_os.FileSystem.Pool.{
  Queue, read_sectors, scan, scan_cache, scan_disk, after_cache, load_free_sectors, max_read,
}

-- 512 bytes to a sector, and a table whose size in bytes fits 32 bits.
pub record IsSized (g : Geometry) : Type 0 where
  pub sector_size : g.bytes_per_sec ≡ 512
  pub fits : g.fs_table_size < 2 ^ 23

-- A mounted drive caches sectors of its table only.
pub record IsMounted (t : Table) : Type 0 where
  pub sized : IsSized t.geometry
  pub in_table : (id : ℕ) (b : Block) → find_block t.cache id ≡ some b → id < t.fs_table_size

-- A sector of the table whose entry is 0.
abbrev pub IsFree : Table → ℕ → Type 0
IsFree t s = (s < t.fs_table_size * 128) × (entry t s ≡ 0)

-- What is cached is on the drive, as it is after a flush of the whole cache.
abbrev pub IsFlushed : Table → Type 0
IsFlushed t =
    (id : ℕ) (b : Block)
    → find_block t.cache id ≡ some b
    → b.sector_block ≡ t.disk (get_table_sector_id t.geometry id)

-- Each block of the cache is the one that a search for its id finds.
every_found :
    (blocks : List Block) → IsSorted blocks → All (λ b. find_block blocks b.id ≡ some b) blocks
every_found [] s = tt
every_found (b ∷ blocks) s = (
  find_block_self b blocks,
  All-map _ _ blocks (λ c e. find_block-tail b blocks c.id c s e)
      (every_found blocks (IsSorted-tail b blocks s)),
)

pub read_sectors-get_or :
    (disk : ℕ → List ℕ) (s n j : ℕ)
    → ((r : ℕ) → length (disk r) ≡ 128)
    → j < n * 128
    → get_or (read_sectors disk s n) j 0 ≡ get_or (disk (s + j / 128)) (j % 128) 0
read_sectors-get_or disk s zero j h lt = absurd (omega arith)
read_sectors-get_or disk s (suc n) j h lt = elim (Bool-cases (ltb j 128)) [
  | inl e ↦
      let low : j < 128 = ground arith in
      let q : s + j / 128 ≡ s = omega arith in
      let r : j % 128 ≡ j = omega arith in rw (q, r, get_or-append, h s, e)
  | inr e ↦
      let high : 128 ≤ j = ground arith in
      let q : s + 1 + (j - 128) / 128 ≡ s + j / 128 = omega arith in
      let r : (j - 128) % 128 ≡ j % 128 = omega arith in
      rw (get_or-append, h s, e, read_sectors-get_or disk (s + 1) n (j - 128) h (omega arith), q, r)
]

pub length-read_sectors :
    (disk : ℕ → List ℕ) (s n : ℕ)
    → ((r : ℕ) → length (disk r) ≡ 128)
    → length (read_sectors disk s n) ≡ n * 128
length-read_sectors disk s zero h = omega arith
length-read_sectors disk s (suc n) h = omega (
  arith,
  length-append (disk s) (read_sectors disk (s + 1) n),
  h s,
  length-read_sectors disk (s + 1) n h,
)

words_flushed :
    (t : Table) (id : ℕ) → IsFlushed t → words t id ≡ t.disk (get_table_sector_id t.geometry id)
words_flushed t id fl = elim (Option-cases (find_block t.cache id)) [
  | inl e ↦ rw e
  | inr (b, e) ↦ rw e (fl id b e)
]

table_sector :
    (t : Table) (i k : ℕ)
    → t.rsvd_sec_cnt < 2 ^ 16
    → i + k < 2 ^ 23
    → (i + t.rsvd_sec_cnt + 1) % 2 ^ 32 + k ≡ get_table_sector_id t.geometry (i + k)
unfolding get_table_sector_id
table_sector t i k r h = omega arith

module _ (𝒬 : Queue) where
  open 𝒬 use {Q, contents, push_back, pushed, refused}

  push_back-All :
      (P : ℕ → Type 0) (q : Q) (x : ℕ)
      → P x
      → All P (contents q)
      → All P (contents (push_back q x).0)
  push_back-All P q x px h = elim (Bool-cases (push_back q x).1) [
    | inl e ↦ rw (pushed q x e) (All-append P (contents q) (x ∷ []) h (px, tt))
    | inr e ↦ rw (refused q x e) h
  ]

  scan-All :
      (P : ℕ → Type 0) (ws : List ℕ) (id : ℕ) (q : Q)
      → ((j : ℕ) → j < length ws → get_or ws j 0 % 2 ^ 28 ≡ 0 → P ((id + j) % 2 ^ 32))
      → All P (contents q)
      → All P (contents (scan 𝒬 ws id q).0)
  unfolding scan
  scan-All P [] id q free h = h
  scan-All P (w ∷ ws) id q free h = elim (Bool-cases (w % 2 ^ 28 == 0)) [
    | inr e ↦ rw e (scan-All P ws (id + 1) q later h)
    | inl e ↦ elim (Bool-cases (push_back q (id % 2 ^ 32)).1) [
      | inl p ↦ rw (e, p) (scan-All P ws (id + 1) _ later (grown (ground arith)))
      | inr p ↦ rw (e, p) (grown (ground arith))
    ]
  ]
    where
      later : (j : ℕ) → j < length ws → get_or ws j 0 % 2 ^ 28 ≡ 0 → P ((id + 1 + j) % 2 ^ 32)
      later j lt z =
          let e : id + suc j ≡ id + 1 + j = omega arith in
          subst (λ k. P (k % 2 ^ 32)) e (free (suc j) (omega arith) z)

      grown : get_or (w ∷ ws) 0 0 % 2 ^ 28 ≡ 0 → All P (contents (push_back q (id % 2 ^ 32)).0)
      grown z =
          let e : id + 0 ≡ id = omega arith in
          push_back-All P q (id % 2 ^ 32) (subst (λ k. P (k % 2 ^ 32)) e (free 0 (omega arith) z)) h

  -- A block of the cache stands for the words of its table sector.
  scan_cache-All :
      (t : Table) (blocks : List Block) (q : Q)
      → Inv t
      → IsMounted t
      → All (λ b. find_block t.cache b.id ≡ some b) blocks
      → All (IsFree t) (contents q)
      → All (IsFree t) (contents (scan_cache 𝒬 blocks q).0)
  unfolding scan_cache
  scan_cache-All t [] q inv m found h = h
  scan_cache-All t (b ∷ blocks) q inv m found h =
      elim (Bool-cases (scan 𝒬 b.sector_block (b.id * 128) q).1) [
        | inl e ↦ rw e grown
        | inr e ↦ rw e (scan_cache-All t blocks _ inv m found.1 grown)
      ]
    where
      free :
          (j : ℕ)
          → j < length b.sector_block
          → get_or b.sector_block j 0 % 2 ^ 28 ≡ 0
          → IsFree t ((b.id * 128 + j) % 2 ^ 32)
      free j lt z =
          let small = m.in_table b.id b found.0 in
          let lt' : j < 128 = omega (arith, inv.whole b.id b found.0) in
          let e : (b.id * 128 + j) % 2 ^ 32 ≡ b.id * 128 + j = omega (arith, m.sized.fits) in
          let i : (b.id * 128 + j) / 128 ≡ b.id = omega arith in
          let o : (b.id * 128 + j) % 128 ≡ j = omega arith in
          rw e (omega arith, rw (i, o, found.0) z)

      grown : All (IsFree t) (contents (scan 𝒬 b.sector_block (b.id * 128) q).0)
      grown = scan-All (IsFree t) b.sector_block (b.id * 128) q free h

  -- The words that a round of the second pass reads are those of its table sectors.
  round-All :
      (t : Table) (i n : ℕ) (q : Q)
      → Inv t
      → IsMounted t
      → IsFlushed t
      → i + n ≤ t.fs_table_size
      → All (IsFree t) (contents q)
      → All (IsFree t) (
          contents
            (scan 𝒬 (read_sectors t.disk ((i + t.rsvd_sec_cnt + 1) % 2 ^ 32) n) (i * 128) q).0)
  round-All t i n q inv m fl le h =
      scan-All (IsFree t) _ (i * 128) q
        (λ j lt z.
          free j
            (omega (
              arith,
              length-read_sectors t.disk ((i + t.rsvd_sec_cnt + 1) % 2 ^ 32) n inv.whole_disk,
            ))
            z)
        h
    where
      free :
          (j : ℕ)
          → j < n * 128
          → get_or (read_sectors t.disk ((i + t.rsvd_sec_cnt + 1) % 2 ^ 32) n) j 0 % 2 ^ 28 ≡ 0
          → IsFree t ((i * 128 + j) % 2 ^ 32)
      free j lt z =
          let e : (i * 128 + j) % 2 ^ 32 ≡ i * 128 + j = omega (arith, m.sized.fits) in
          let b : (i * 128 + j) / 128 ≡ i + j / 128 = omega arith in
          let o : (i * 128 + j) % 128 ≡ j % 128 = omega arith in
          let s = table_sector t i (j / 128) inv.reserved (omega (arith, m.sized.fits)) in
          let r =
            read_sectors-get_or t.disk ((i + t.rsvd_sec_cnt + 1) % 2 ^ 32) n j inv.whole_disk lt in
          rw e (omega arith, rw (b, o, words_flushed t (i + j / 128) fl, ← s, ← r) z)

  scan_disk-All :
      (fuel : ℕ) (t : Table) (i : ℕ) (q : Q)
      → Inv t
      → IsMounted t
      → IsFlushed t
      → All (IsFree t) (contents q)
      → All (IsFree t) (contents (scan_disk 𝒬 fuel t i q))
  unfolding scan_disk
  scan_disk-All zero t i q inv m fl h = h
  scan_disk-All (suc fuel) t i q inv m fl h =
      if_cases good (ltb i t.fs_table_size) _ q
        (λ more.
          if_cases good (binary_search t.cache i).0 _ _
            (λ _. scan_disk-All fuel t (i + 1) q inv m fl h)
            (λ _.
              let kept = round-All t i n q inv m fl (ground arith) h in
              if_cases good
                (scan 𝒬 (read_sectors t.disk ((i + t.rsvd_sec_cnt + 1) % 2 ^ 32) n) (i * 128) q).1 _
                _ (λ _. kept) (λ _. scan_disk-All fuel t (i + n) _ inv m fl kept)))
        (λ _. h)
    where
      good : Q → Type 0
      good r = All (IsFree t) (contents r)

      n : ℕ
      n = if ltb max_read (t.fs_table_size - i) then max_read else t.fs_table_size - i

  -- On the well-formed table of a mounted drive, with nothing cached that waits to be written back,
  -- `LoadFreeSectors` leaves a pool of free sectors, if the pool held free sectors only.
  pub load_free_sectors-All :
      (t : Table) (q : Q)
      → Inv t
      → IsMounted t
      → IsFlushed t
      → All (IsFree t) (contents q)
      → All (IsFree t) (contents (load_free_sectors 𝒬 t q))
  unfolding load_free_sectors
  load_free_sectors-All t q inv m fl h =
      if_cases (λ r. All (IsFree t) (contents r)) (𝒬.full q) _ _ (λ _. h)
        (λ _.
          second (scan_cache 𝒬 t.cache q)
            (scan_cache-All t t.cache q inv m (every_found t.cache inv.sorted) h))
    where
      second :
          (r : Q × Bool)
          → All (IsFree t) (contents r.0)
          → All (IsFree t) (contents (after_cache 𝒬 t r))
      second (r, true) k = k
      second (r, false) k = scan_disk-All t.fs_table_size t 0 r inv m fl k
