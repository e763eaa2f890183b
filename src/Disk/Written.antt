-- ===== src/Disk/Written.antt =====
-- drivers/DeviceDrive.cpp: the loops of a write, by the sectors that they cover.
use upanix_os.Base.{
  ℕ, zero, suc, ◌+◌, ◌<◌, ◌≤◌, ◌==◌, Bool, true, false, ◌||◌, ◌&&◌, some, inl, inr, ◌≡◌, refl, sym,
  ap, ◌∙◌, arith, leb, ltb, if◌then◌else◌, bind_some, Bool-cases, ==_iff,
}
use upanix_os.Disk.Cache.{Sector}
use upanix_os.Disk.Drive.{DiskDrive, store_run, store_one, store_mixed}
use upanix_os.Disk.Coherent.{content, cached, listed, IsCoherent, Step}
use upanix_os.Disk.Stored.{store_found-Step, store_missing-Step}

-- The sectors of `t` are written, to `at`; all others keep what they held.
pub record Moved (t : ℕ → Bool) (at : ℕ → Sector) (d u : DiskDrive) : Type 0 where
  pub coherent : IsCoherent u
  pub holds : (j : ℕ) → content u j ≡ (if t j then at j else content d j)
  pub lists : (j : ℕ) → listed d j ≡ false → listed u j ≡ false
  pub stays : (j : ℕ) → t j ≡ false → listed d j ≡ false → cached u j ≡ cached d j
  pub same_drive :
      (u.enable_disk_cache ≡ d.enable_disk_cache) × (u.lba_start_sector ≡ d.lba_start_sector)

Moved-none : (at : ℕ → Sector) (d : DiskDrive) → IsCoherent d → Moved (λ j. false) at d d
Moved-none at d h = record {
  coherent = h;
  holds = λ j. refl;
  lists = λ j e. e;
  stays = λ j n e. refl;
  same_drive = (refl, refl);
}

Moved-one :
    (k : ℕ) (at : ℕ → Sector) (d u : DiskDrive)
    → Step k (λ j. if j == k then at k else content d j) d u
    → Moved (λ j. j == k) at d u
Moved-one k at d u s = record {
  coherent = s.coherent;
  holds = λ j. s.holds j ∙ elim (Bool-cases (j == k)) [
    | inl t ↦ rw t (ap at (sym ((==_iff j k).0 t)))
    | inr n ↦ rw n refl
  ];
  lists = s.lists;
  stays = s.stays;
  same_drive = s.same_drive;
}

pub Moved-trans :
    (t t' : ℕ → Bool) (at : ℕ → Sector) (d e u : DiskDrive)
    → Moved t at d e
    → Moved t' at e u
    → Moved (λ j. t' j || t j) at d u
Moved-trans t t' at d e u a b = record {
  coherent = b.coherent;
  holds =
      λ j. b.holds j ∙ elim (Bool-cases (t' j)) [ inl y ↦ rw y refl | inr n ↦ rw n (a.holds j) ];
  lists = λ j f. b.lists j (a.lists j f);
  stays = λ j n f. b.stays j (ground (arith, n)) (a.lists j f) ∙ a.stays j (ground (arith, n)) f;
  same_drive = (b.same_drive.0 ∙ a.same_drive.0, b.same_drive.1 ∙ a.same_drive.1);
}

pub Moved-same :
    (t t' : ℕ → Bool) (at : ℕ → Sector) (d u : DiskDrive)
    → ((j : ℕ) → t j ≡ t' j)
    → Moved t at d u
    → Moved t' at d u
Moved-same t t' at d u same a = record {
  coherent = a.coherent;
  holds = λ j. a.holds j ∙ ap (λ b. if b then at j else content d j) (same j);
  lists = a.lists;
  stays = λ j n f. a.stays j (same j ∙ n) f;
  same_drive = a.same_drive;
}

-- From `a` on, `n` sectors
abbrev pub within : ℕ → ℕ → ℕ → Bool
within a n j = leb a j && ltb j (a + n)

pub within_none : (a j : ℕ) → false ≡ within a 0 j
within_none a j = ground arith

pub within_more : (a n j : ℕ) → (within (suc a) n j || (j == a)) ≡ within a (suc n) j
within_more a n j = ground arith

-- A run of sectors that are found, none of them listed to be replaced, is written.
pub store_run-Moved :
    (at : ℕ → Sector) (n a : ℕ) (d : DiskDrive)
    → IsCoherent d
    → ((j : ℕ) → a ≤ j → j < a + n → cached d j ≡ true)
    → ((j : ℕ) → a ≤ j → j < a + n → listed d j ≡ false)
    → (u : DiskDrive) × (store_run at a n d ≡ some u) × Moved (within a n) at d u
unfolding store_run
store_run-Moved at zero a d h c l =
    (d, refl, Moved-same (λ j. false) (within a 0) at d d (within_none a) (Moved-none at d h))
store_run-Moved at (suc n) a d h c l =
    let (e, eq, s) = store_found-Step a (at a) d h (c a (omega arith) (omega arith)) in
    let one = Moved-one a at d e s in
    let (u, eq', rest) =
      store_run-Moved at n (suc a) e s.coherent
        (λ j lo hi.
          one.stays j (ground (arith, lo)) (l j (omega (arith, lo)) (omega (arith, hi)))
          ∙ c j (omega (arith, lo)) (omega (arith, hi)))
        (λ j lo hi. one.lists j (l j (omega (arith, lo)) (omega (arith, hi)))) in
    (
      u,
      bind_some (λ o. o ≡ some u) _ e (store_run at (suc a) n) eq eq',
      Moved-same _ _ at d u (within_more a n) (Moved-trans _ _ at d e u one rest),
    )

-- One sector between the breaks
store_one-Moved :
    (found : ℕ → Bool) (fallback : ℕ → DiskDrive → DiskDrive) (at : ℕ → Sector) (a : ℕ)
    (d : DiskDrive)
    → IsCoherent d
    → cached d a ≡ found a
    → (u : DiskDrive) × (store_one found fallback at a d ≡ some (true, u))
      × Moved (λ j. j == a) at d u
unfolding store_one
store_one-Moved found fallback at a d h same = elim (Bool-cases (found a)) [
  | inl t ↦
      let (u, e, s) = store_found-Step a (at a) d h (same ∙ t) in
      (u, rw (t, e) refl, Moved-one a at d u s)
  | inr f ↦
      let (u, e, s) = store_missing-Step (fallback a) a (at a) d h (same ∙ f) in
      (u, rw (f, e) refl, Moved-one a at d u s)
]

-- The sectors between the breaks are written, found or not, when none of them is listed to be replaced.
pub store_mixed-Moved :
    (found : ℕ → Bool) (fallback : ℕ → DiskDrive → DiskDrive) (at : ℕ → Sector) (n a : ℕ)
    (d : DiskDrive)
    → IsCoherent d
    → ((j : ℕ) → a ≤ j → j < a + n → cached d j ≡ found j)
    → ((j : ℕ) → a ≤ j → j < a + n → listed d j ≡ false)
    → (u : DiskDrive) × (store_mixed found fallback at a n d ≡ some u) × Moved (within a n) at d u
unfolding store_mixed
store_mixed-Moved found fallback at zero a d h c l =
    (d, refl, Moved-same (λ j. false) (within a 0) at d d (within_none a) (Moved-none at d h))
store_mixed-Moved found fallback at (suc n) a d h c l =
    let (e, eq, one) = store_one-Moved found fallback at a d h (c a (omega arith) (omega arith)) in
    let (u, eq', rest) =
      store_mixed-Moved found fallback at n (suc a) e one.coherent
        (λ j lo hi.
          one.stays j (ground (arith, lo)) (l j (omega (arith, lo)) (omega (arith, hi)))
          ∙ c j (omega (arith, lo)) (omega (arith, hi)))
        (λ j lo hi. one.lists j (l j (omega (arith, lo)) (omega (arith, hi)))) in
    (u, rw eq eq', Moved-same _ _ at d u (within_more a n) (Moved-trans _ _ at d e u one rest))
