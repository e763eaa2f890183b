-- ===== src/Disk/Read.antt =====
-- drivers/DeviceDrive.cpp: what a read gives.
use upanix_os.Base.{
  ℕ, suc, ◌+◌, ◌-◌, ◌<◌, ◌≤◌, ◌%◌, ◌^◌, Bool, true, false, Option, some, inl, inr, ◌≡◌, refl, sym,
  ap, ◌∙◌, arith, lt→ltb, if_cases, bind_some, Bool-cases,
}
use upanix_os.Disk.Cache.{Sector}
use upanix_os.Disk.Drive.{
  DiskDrive, load_mixed, raw_read_all, first_break, last_break, read_cached, drive_read,
}
use upanix_os.Disk.Coherent.{content, cached, listed, IsCoherent, or_disk-uncached}
use upanix_os.Disk.Written.{within}
use upanix_os.Disk.Breaks.{all_found, some_missing, breaks}
use upanix_os.Disk.Loaded.{
  Filled-trans, Filled-same, load_run-Filled, raw_read_all-Filled, Loaded, load_mixed-Loaded,
}
use mathlib.Core.Path.{subst}

abbrev Result : Type 0
Result = Option (DiskDrive × (ℕ → Sector))

-- Between the breaks the disk is read first, and what was found comes from the cache.
between :
    (found : ℕ → Bool) (n a : ℕ) (d : DiskDrive) (b : ℕ → Sector)
    → IsCoherent d
    → ((j : ℕ) → cached d j ≡ found j)
    → ((j : ℕ) → a ≤ j → j < a + n → listed d j ≡ false)
    → (u : DiskDrive) × (b' : ℕ → Sector) × (load_mixed found a n d (raw_read_all d.disk a n b)
        ≡ some (u, b'))
      × Loaded (within a n) d u b b'
between found n a d b h same apart =
    let raw = raw_read_all d.disk a n b in
    let from_disk = raw_read_all-Filled d.disk n a b in
    let (u, b', e, k) =
      load_mixed-Loaded found n a d raw h (λ j lo hi. same j) apart
        (λ j lo hi un.
          from_disk j
          ∙ if_cases (λ x. x ≡ content d j) (within a n j) _ _
              (λ t. sym (or_disk-uncached (d.cache.tree j) (d.disk j) (same j ∙ un)))
              (λ f. absurd (ground (arith, f, lo, hi)))) in
    (
      u,
      b',
      e,
      record {
        coherent = k.coherent;
        holds = k.holds;
        filled = λ j. k.filled j ∙ elim (Bool-cases (within a n j)) [
          | inl t ↦ rw t refl
          | inr f ↦ rw f (from_disk j ∙ (rw f refl))
        ];
        same_drive = k.same_drive;
      },
    )

-- The loops of a read cover the request.
pub read_cached-Loaded :
    (start end : ℕ) (d : DiskDrive) (b : ℕ → Sector)
    → IsCoherent d
    → ((j : ℕ) → start ≤ j → j < end → listed d j ≡ false)
    → (u : DiskDrive) × (b' : ℕ → Sector) × (read_cached start end d b ≡ some (u, b'))
      × Loaded (within start (end - start)) d u b b'
unfolding read_cached
read_cached-Loaded start end d b h apart =
    let found = cached d in
    let first = first_break found start (end - start) in
    let last = last_break found start (end - start) end in
    elim (breaks found start end) [
      | all_found n none_left no_break all ↦
          let (b1, e1, f1) =
            load_run-Filled d (first - start) start b
              (λ j le lt. all j le (omega (arith, lt, n))) in
          let (b2, e2, f2) =
            load_run-Filled d (end - suc last) (suc last) b1
              (λ j le lt. absurd (omega (arith, le, lt, none_left))) in
          (
            d,
            b2,
            bind_some (λ (o : Result). o ≡ some (d, b2)) _ b1 _ e1
                (bind_some (λ (o : Result). o ≡ some (d, b2)) _ b2 _ e2 (rw no_break refl)),
            record {
              coherent = h;
              holds = λ j. refl;
              filled =
                  Filled-same _ _ (content d) b b2 (λ j. ground (arith, n, none_left))
                    (Filled-trans _ _ (content d) b b1 b2 f1 f2);
              same_drive = (refl, refl);
            },
          )
      | some_missing lo mid hi before behind ↦
          let (b1, e1, f1) =
            load_run-Filled d (first - start) start b
              (λ j le lt. before j le (omega (arith, lt, lo))) in
          let (b2, e2, f2) =
            load_run-Filled d (end - suc last) (suc last) b1
              (λ j le lt. behind j le (omega (arith, lt, hi))) in
          let (u, b3, e3, k) =
            between found (suc (last - first)) first d b2 h (λ j. refl)
              (λ j le lt. apart j (omega (arith, le, lo)) (omega (arith, lt, mid, hi))) in
          (
            u,
            b3,
            bind_some (λ (o : Result). o ≡ some (u, b3)) _ b1 _ e1
                (bind_some (λ (o : Result). o ≡ some (u, b3)) _ b2 _ e2
                  (rw (lt→ltb first end (omega (arith, mid, hi))) e3)),
            record {
              coherent = k.coherent;
              holds = k.holds;
              filled =
                  Filled-same _ _ (content d) b b3 (λ j. ground (arith, lo, mid, hi))
                    (Filled-trans _ _ (content d) b b2 b3
                      (Filled-trans _ _ (content d) b b1 b2 f1 f2) k.filled);
              same_drive = k.same_drive;
            },
          )
    ]

-- A drive whose cache is coherent and enabled, and a request of `n` sectors within 32 bits, none of which the
-- cache lists to be replaced: the read succeeds and the buffer gets what the drive holds in these sectors,
-- from the cache or from the disk. The drive holds what it held, and is coherent again.
pub content-drive_read :
    (sector n : ℕ) (buffer : ℕ → Sector) (d : DiskDrive)
    → IsCoherent d
    → d.enable_disk_cache ≡ true
    → sector + d.lba_start_sector + n < 2 ^ 32
    → ((i : ℕ) → i < n → listed d (sector + d.lba_start_sector + i) ≡ false)
    → (u : DiskDrive) × (b : ℕ → Sector) × (drive_read sector n d buffer ≡ some (u, b))
      × IsCoherent u
      × (u.enable_disk_cache ≡ true)
      × ((j : ℕ) → content u j ≡ content d j)
      × ((i : ℕ)
          → i < n
          → b (sector + d.lba_start_sector + i) ≡ content d (sector + d.lba_start_sector + i))
unfolding drive_read
content-drive_read sector n buffer d h on small apart =
    let start = sector + d.lba_start_sector in
    let fits : start % 2 ^ 32 ≡ start = omega (arith, small) in
    let fits' : (start + n) % 2 ^ 32 ≡ start + n = omega (arith, small) in
    let (u, b, e, k) = read_cached-Loaded start (start + n) d buffer h (λ j le lt.
      subst (λ i. listed d i ≡ false) (omega (arith, le))
        (apart (j - start) (omega (arith, le, lt)))) in
    (
      u,
      b,
      if_cases (λ (o : Result). o ≡ some (u, b)) d.enable_disk_cache _ _
          (λ t.
            ap (λ a. read_cached a ((a + n) % 2 ^ 32) d buffer) fits
            ∙ ap (λ a. read_cached start a d buffer) fits'
            ∙ e)
          (λ f. absurd (ground (arith, f, on))),
      k.coherent,
      k.same_drive.0 ∙ on,
      k.holds,
      λ i lt.
          k.filled (start + i)
          ∙ if_cases (λ x. x ≡ content d (start + i)) (within start (start + n - start) (start + i))
              _ _ (λ t. refl) (λ f. absurd (ground (arith, f, lt))),
    )
