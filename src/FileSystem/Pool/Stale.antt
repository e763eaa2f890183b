-- ===== src/FileSystem/Pool/Stale.antt =====
-- The second pass of `LoadFreeSectors` reads 8 table sectors at a time from the drive, and asks the
-- cache about the first of them only.
use mathlib.Core.Path.{subst}
use upanix_os.Base.{
  ℕ, zero, suc, ◌+◌, ◌-◌, ◌*◌, ◌/◌, ◌%◌, ◌^◌, ◌<◌, ◌≡◌, refl, ◌≢◌, Bool, true, false, List, [], ◌∷◌,
  none, inl, inr, arith, length, get_or, Has, Has-left, Has-end, All, All-Has, ltb, ◌==◌,
  if◌then◌else◌, Bool-cases, if_cases,
}
use upanix_os.FileSystem.Table.{Table, Block, binary_search, get_table_sector_id}
use upanix_os.FileSystem.Table.Cached.{find_block, find_block-found}
use upanix_os.FileSystem.Table.Find.{Finds, binary_search-Finds}
use upanix_os.FileSystem.Table.Words.{Inv}
use upanix_os.FileSystem.Table.Replace.{entry}
use upanix_os.FileSystem.Pool.{
  Queue, read_sectors, max_read, scan, scan_cache, scan_disk, after_cache, load_free_sectors,
}
use upanix_os.FileSystem.Pool.Scan.{IsFree, IsMounted, read_sectors-get_or, length-read_sectors}

-- A block that is not cached is not found.
not_found :
    (t : Table) (id : ℕ)
    → Inv t
    → find_block t.cache id ≡ none
    → (binary_search t.cache id).0 ≡ false
not_found t id inv e = go (binary_search t.cache id) (binary_search-Finds t.cache id inv.sorted).1
  where
    go : (r : Bool × ℕ) → Finds t.cache id r → r.0 ≡ false
    go (false, p) f = refl
    go (true, p) f = absurd (ground (arith, find_block-found t.cache p id inv.sorted f))

-- A pool that never refuses a sector.
module _ (𝒬 : Queue) (room : (q : 𝒬.Q) (x : ℕ) → (𝒬.push_back q x).1 ≡ true) where
  open 𝒬 use {Q, contents, push_back, pushed}

  push_back-Has : (q : Q) (x y : ℕ) → Has y (contents q) → Has y (contents (push_back q x).0)
  push_back-Has q x y h = rw (pushed q x (room q x)) (Has-left y (contents q) (x ∷ []) h)

  scan-Has :
      (ws : List ℕ) (id : ℕ) (q : Q) (y : ℕ)
      → Has y (contents q)
      → Has y (contents (scan 𝒬 ws id q).0)
  unfolding scan
  scan-Has [] id q y h = h
  scan-Has (w ∷ ws) id q y h = elim (Bool-cases (w % 2 ^ 28 == 0)) [
    | inr e ↦ rw e (scan-Has ws (id + 1) q y h)
    | inl e ↦
        rw (e, room q (id % 2 ^ 32)) (scan-Has ws (id + 1) _ y (push_back-Has q (id % 2 ^ 32) y h))
  ]

  scan_goes_on : (ws : List ℕ) (id : ℕ) (q : Q) → (scan 𝒬 ws id q).1 ≡ false
  unfolding scan
  scan_goes_on [] id q = refl
  scan_goes_on (w ∷ ws) id q = elim (Bool-cases (w % 2 ^ 28 == 0)) [
    | inr e ↦ rw e (scan_goes_on ws (id + 1) q)
    | inl e ↦ rw (e, room q (id % 2 ^ 32)) (scan_goes_on ws (id + 1) _)
  ]

  -- A word that is 0 puts its sector into the pool.
  scan_finds :
      (ws : List ℕ) (id j : ℕ) (q : Q)
      → j < length ws
      → get_or ws j 0 % 2 ^ 28 ≡ 0
      → Has ((id + j) % 2 ^ 32) (contents (scan 𝒬 ws id q).0)
  unfolding scan
  scan_finds [] id j q lt z = absurd (omega arith)
  scan_finds (w ∷ ws) id zero q lt z =
      let e : id + 0 ≡ id = omega arith in
      let b : (w % 2 ^ 28 == 0) ≡ true = ground arith in
      rw (b, e, room q (id % 2 ^ 32))
        (scan-Has ws (id + 1) _ (id % 2 ^ 32)
          (rw (pushed q (id % 2 ^ 32) (room q (id % 2 ^ 32))) (Has-end (id % 2 ^ 32) (contents q))))
  scan_finds (w ∷ ws) id (suc j) q lt z =
      let e : id + suc j ≡ id + 1 + j = omega arith in
      rw e (elim (Bool-cases (w % 2 ^ 28 == 0)) [
        | inr b ↦ rw b (scan_finds ws (id + 1) j q (omega arith) z)
        | inl b ↦ rw (b, room q (id % 2 ^ 32)) (scan_finds ws (id + 1) j _ (omega arith) z)
      ])

  scan_cache_goes_on : (blocks : List Block) (q : Q) → (scan_cache 𝒬 blocks q).1 ≡ false
  unfolding scan_cache
  scan_cache_goes_on [] q = refl
  scan_cache_goes_on (b ∷ blocks) q =
      rw (scan_goes_on b.sector_block (b.id * 128) q) (scan_cache_goes_on blocks _)

  scan_disk-Has :
      (fuel : ℕ) (t : Table) (i : ℕ) (q : Q) (y : ℕ)
      → Has y (contents q)
      → Has y (contents (scan_disk 𝒬 fuel t i q))
  unfolding scan_disk
  scan_disk-Has zero t i q y h = h
  scan_disk-Has (suc fuel) t i q y h =
      if_cases good (ltb i t.fs_table_size) _ q
        (λ _.
          if_cases good (binary_search t.cache i).0 _ _ (λ _. scan_disk-Has fuel t (i + 1) q y h)
            (λ _.
              let kept =
                scan-Has (read_sectors t.disk ((i + t.rsvd_sec_cnt + 1) % 2 ^ 32) n) (i * 128) q y
                  h in
              if_cases good _ _ _ (λ _. kept) (λ _. scan_disk-Has fuel t (i + n) _ y kept)))
        (λ _. h)
    where
      good : Q → Type 0
      good r = Has y (contents r)

      n : ℕ
      n = if ltb max_read (t.fs_table_size - i) then max_read else t.fs_table_size - i

  first_round :
      (fuel : ℕ) (t : Table) (k j : ℕ) (q : Q)
      → Inv t
      → IsMounted t
      → find_block t.cache 0 ≡ none
      → k < 8
      → k < t.fs_table_size
      → j < 128
      → get_or (t.disk (get_table_sector_id t.geometry k)) j 0 % 2 ^ 28 ≡ 0
      → Has (k * 128 + j) (contents (scan_disk 𝒬 (suc fuel) t 0 q))
  unfolding scan_disk get_table_sector_id
  first_round fuel t k j q inv m none0 hk hs hj z =
      if_cases good (ltb 0 t.fs_table_size) _ q
        (λ _.
          if_cases good (binary_search t.cache 0).0 _ _
            (λ e. absurd (ground (arith, not_found t 0 inv none0)))
            (λ _.
              if_cases good _ _ _ (λ _. found)
                (λ _. scan_disk-Has fuel t (0 + n) _ (k * 128 + j) found)))
        (λ e. absurd (ground arith))
    where
      good : Q → Type 0
      good r = Has (k * 128 + j) (contents r)

      n : ℕ
      n = if ltb max_read (t.fs_table_size - 0) then max_read else t.fs_table_size - 0

      covered : k < n
      covered = ground arith

      start : ℕ
      start = (0 + t.rsvd_sec_cnt + 1) % 2 ^ 32

      found : good (scan 𝒬 (read_sectors t.disk start n) (0 * 128) q).0
      found =
          let b : start + (k * 128 + j) / 128 ≡ (k + 1 + t.rsvd_sec_cnt) % 2 ^ 32 =
            omega (arith, inv.reserved) in
          let o : (k * 128 + j) % 128 ≡ j = omega arith in
          let e : (0 * 128 + (k * 128 + j)) % 2 ^ 32 ≡ k * 128 + j = omega (arith, m.sized.fits) in
          let lt : k * 128 + j < n * 128 = omega (arith, covered) in
          subst good' e (
            scan_finds (read_sectors t.disk start n) (0 * 128) (k * 128 + j) q
              (omega (arith, length-read_sectors t.disk start n inv.whole_disk))
              (rw (read_sectors-get_or t.disk start n (k * 128 + j) inv.whole_disk lt, b, o) z))
        where
          good' : ℕ → Type 0
          good' y = Has y (contents (scan 𝒬 (read_sectors t.disk start n) (0 * 128) q).0)

  -- On the well-formed table of a mounted drive with block 0 not cached, for a pool that is not full and refuses
  -- no sector: a sector of the first 8 blocks that is not free, but whose entry on the drive is still 0, makes
  -- `LoadFreeSectors` leave a pool that does not hold free sectors only, since the read that begins with block 0
  -- takes its block from the drive.
  pub load_free_sectors_stale :
      (t : Table) (k j : ℕ) (q : Q)
      → Inv t
      → IsMounted t
      → 𝒬.full q ≡ false
      → find_block t.cache 0 ≡ none
      → k < 8
      → k < t.fs_table_size
      → j < 128
      → get_or (t.disk (get_table_sector_id t.geometry k)) j 0 % 2 ^ 28 ≡ 0
      → entry t (k * 128 + j) ≢ 0
      → ¬ All (IsFree t) (contents (load_free_sectors 𝒬 t q))
  unfolding load_free_sectors
  load_free_sectors_stale t k j q inv m room' none0 hk hs hj z taken all =
      taken (All-Has (IsFree t) (k * 128 + j) (contents (load_free_sectors 𝒬 t q)) all offered).1
    where
      by_size :
          (size : ℕ) (r : Q)
          → t.fs_table_size ≡ size
          → Has (k * 128 + j) (contents (scan_disk 𝒬 size t 0 r))
      by_size zero r e = absurd (omega arith)
      by_size (suc fuel) r e = first_round fuel t k j r inv m none0 hk hs hj z

      second : (r : Q × Bool) → r.1 ≡ false → Has (k * 128 + j) (contents (after_cache 𝒬 t r))
      second (r, true) e = absurd (ground arith)
      second (r, false) e = by_size t.fs_table_size r refl

      offered : Has (k * 128 + j) (contents (load_free_sectors 𝒬 t q))
      offered = rw room' (second (scan_cache 𝒬 t.cache q) (scan_cache_goes_on t.cache q))
