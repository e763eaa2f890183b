-- ===== src/Disk/Loaded.antt =====
-- drivers/DeviceDrive.cpp: the loops of a read, by the sectors that they cover.
use upanix_os.Base.{
  ℕ, zero, suc, ◌+◌, ◌<◌, ◌≤◌, ◌==◌, Bool, true, false, ◌||◌, some, inl, inr, ◌≡◌, refl, sym, ap,
  ◌∙◌, arith, if◌then◌else◌, if_cases, bind_some, Bool-cases, Option-cases, ==_iff,
}
use upanix_os.Disk.Cache.{Sector, is_some}
use upanix_os.Disk.Drive.{
  DiskDrive, load_found, load_run, raw_read_all, placed, keep_missing, load_one, load_mixed,
}
use upanix_os.Disk.Coherent.{content, cached, listed, IsCoherent, Step, or_disk, or_disk-uncached}
use upanix_os.Disk.Replaced.{Step-refl}
use upanix_os.Disk.Stored.{keep_missing-Step}
use upanix_os.Disk.Written.{within, within_none, within_more}

-- The places of `t` in the buffer have got `c`.
abbrev pub Filled : (ℕ → Bool) → (ℕ → Sector) → (ℕ → Sector) → (ℕ → Sector) → Type 0
Filled t c b b' = (j : ℕ) → b' j ≡ (if t j then c j else b j)

pub Filled-trans :
    (t t' : ℕ → Bool) (c b b1 b2 : ℕ → Sector)
    → Filled t c b b1
    → Filled t' c b1 b2
    → Filled (λ j. t' j || t j) c b b2
Filled-trans t t' c b b1 b2 f g j =
    g j ∙ elim (Bool-cases (t' j)) [ inl y ↦ rw y refl | inr n ↦ rw n (f j) ]

pub Filled-same :
    (t t' : ℕ → Bool) (c b b' : ℕ → Sector)
    → ((j : ℕ) → t j ≡ t' j)
    → Filled t c b b'
    → Filled t' c b b'
Filled-same t t' c b b' same f j = f j ∙ ap (λ x. if x then c j else b j) (same j)

load_found-Filled :
    (a : ℕ) (d : DiskDrive) (b : ℕ → Sector)
    → cached d a ≡ true
    → (b' : ℕ → Sector) × (load_found a d.cache b ≡ some b') × Filled (λ j. j == a) (content d) b b'
unfolding load_found
load_found-Filled a d b c = elim (Option-cases (d.cache.tree a)) [
  | inl e ↦ absurd (ground (arith, c, ap is_some e))
  | inr (v, e) ↦ (
    placed a v b,
    rw e refl,
    λ j. elim (Bool-cases (j == a)) [
      | inl t ↦ rw t (sym (ap (content d) ((==_iff j a).0 t) ∙ ap (λ o. or_disk o (d.disk a)) e))
      | inr n ↦ rw n refl
    ],
  )
]

-- A run of sectors that are found is read.
pub load_run-Filled :
    (d : DiskDrive) (n a : ℕ) (b : ℕ → Sector)
    → ((j : ℕ) → a ≤ j → j < a + n → cached d j ≡ true)
    → (b' : ℕ → Sector) × (load_run d.cache a n b ≡ some b') × Filled (within a n) (content d) b b'
unfolding load_run
load_run-Filled d zero a b c =
    (b, refl, Filled-same (λ j. false) (within a 0) (content d) b b (within_none a) (λ j. refl))
load_run-Filled d (suc n) a b c =
    let (b1, e1, f1) = load_found-Filled a d b (c a (omega arith) (omega arith)) in
    let (b2, e2, f2) =
      load_run-Filled d n (suc a) b1 (λ j lo hi. c j (omega (arith, lo)) (omega (arith, hi))) in
    (
      b2,
      bind_some (λ o. o ≡ some b2) _ b1 (load_run d.cache (suc a) n) e1 e2,
      Filled-same _ _ (content d) b b2 (within_more a n)
          (Filled-trans _ _ (content d) b b1 b2 f1 f2),
    )

-- The sectors that come from the disk
pub raw_read_all-Filled :
    (disk : ℕ → Sector) (n a : ℕ) (b : ℕ → Sector)
    → Filled (within a n) disk b (raw_read_all disk a n b)
unfolding raw_read_all
raw_read_all-Filled disk zero a b =
    Filled-same (λ j. false) (within a 0) disk b b (within_none a) (λ j. refl)
raw_read_all-Filled disk (suc n) a b = Filled-same _ _ disk b _ (within_more a n) (
    Filled-trans (λ j. j == a) _ disk b (placed a (disk a) b) _
      (λ j. elim (Bool-cases (j == a)) [
        | inl t ↦ rw t (ap disk (sym ((==_iff j a).0 t)))
        | inr n ↦ rw n refl
      ])
      (raw_read_all-Filled disk n (suc a) (placed a (disk a) b)))

-- One sector between the breaks is read, and the drive holds what it held.
load_one-Filled :
    (found : ℕ → Bool) (a : ℕ) (d : DiskDrive) (b : ℕ → Sector)
    → IsCoherent d
    → cached d a ≡ found a
    → (found a ≡ false → b a ≡ content d a)
    → (u : DiskDrive) × (b' : ℕ → Sector) × (load_one found a d b ≡ some (true, (u, b')))
      × Step a (content d) d u
      × Filled (λ j. j == a) (content d) b b'
unfolding load_one
load_one-Filled found a d b h same from = elim (Bool-cases (found a)) [
  | inl t ↦
      let (b', e, f) = load_found-Filled a d b (same ∙ t) in
      (d, b', rw (t, e) refl, Step-refl a d h, f)
  | inr f ↦
      let un = same ∙ f in
      let got : b a ≡ d.disk a = from f ∙ or_disk-uncached (d.cache.tree a) (d.disk a) un in
      let (u, e, s) = keep_missing-Step a d h un in
      let e' : keep_missing a (b a) d ≡ (true, u) = ap (λ v. keep_missing a v d) got ∙ e in
      (
        u,
        b,
        rw (f, e') refl,
        s,
        λ j. elim (Bool-cases (j == a)) [
          | inl t ↦
              rw t (ap b ((==_iff j a).0 t) ∙ from f ∙ ap (content d) (sym ((==_iff j a).0 t)))
          | inr n ↦ rw n refl
        ],
      )
]

-- What a loop of a read leads to
pub record Loaded (t : ℕ → Bool) (d u : DiskDrive) (b b' : ℕ → Sector) : Type 0 where
  pub coherent : IsCoherent u
  pub holds : (j : ℕ) → content u j ≡ content d j
  pub filled : Filled t (content d) b b'
  pub same_drive :
      (u.enable_disk_cache ≡ d.enable_disk_cache) × (u.lba_start_sector ≡ d.lba_start_sector)

pub load_mixed-Loaded :
    (found : ℕ → Bool) (n a : ℕ) (d : DiskDrive) (b : ℕ → Sector)
    → IsCoherent d
    → ((j : ℕ) → a ≤ j → j < a + n → cached d j ≡ found j)
    → ((j : ℕ) → a ≤ j → j < a + n → listed d j ≡ false)
    → ((j : ℕ) → a ≤ j → j < a + n → found j ≡ false → b j ≡ content d j)
    → (u : DiskDrive) × (b' : ℕ → Sector) × (load_mixed found a n d b ≡ some (u, b'))
      × Loaded (within a n) d u b b'
unfolding load_mixed
load_mixed-Loaded found zero a d b h c l from = (
  d,
  b,
  refl,
  record {
    coherent = h;
    holds = λ j. refl;
    filled = Filled-same (λ j. false) (within a 0) (content d) b b (within_none a) (λ j. refl);
    same_drive = (refl, refl);
  },
)
load_mixed-Loaded found (suc n) a d b h c l from =
    let (e, b1, eq, s, f) =
      load_one-Filled found a d b h (c a (omega arith) (omega arith))
        (from a (omega arith) (omega arith)) in
    let (u, b2, eq', rest) =
      load_mixed-Loaded found n (suc a) e b1 s.coherent
        (λ j lo hi.
          s.stays j (ground (arith, lo)) (l j (omega (arith, lo)) (omega (arith, hi)))
          ∙ c j (omega (arith, lo)) (omega (arith, hi)))
        (λ j lo hi. s.lists j (l j (omega (arith, lo)) (omega (arith, hi))))
        (λ j lo hi un.
          f j
          ∙ if_cases (λ x. x ≡ content e j) (j == a) _ _ (λ t. sym (s.holds j))
              (λ n. from j (omega (arith, lo)) (omega (arith, hi)) un ∙ sym (s.holds j))) in
    (
      u,
      b2,
      rw eq eq',
      record {
        coherent = rest.coherent;
        holds = λ j. rest.holds j ∙ s.holds j;
        filled = Filled-same _ _ (content d) b b2 (within_more a n) (
            Filled-trans _ _ (content d) b b1 b2 f
              (λ j. rest.filled j ∙ ap (λ x. if within (suc a) n j then x else b1 j) (s.holds j)));
        same_drive = (rest.same_drive.0 ∙ s.same_drive.0, rest.same_drive.1 ∙ s.same_drive.1);
      },
    )
