-- ===== src/Disk/Write.antt =====
-- drivers/DeviceDrive.cpp: what a write and a flush do to what the drive holds.
use upanix_os.Base.{
  ℕ, zero, suc, ◌+◌, ◌-◌, ◌<◌, ◌≤◌, ◌%◌, ◌^◌, true, false, Option, some, ◌⊎◌, inl, inr, List, [],
  ◌∷◌, ◌≡◌, refl, sym, ap, ◌∙◌, arith, length, if_cases, Bool-cases, Option-cases, ◌==◌, ==_iff,
  ◌||◌,
}
use upanix_os.Disk.Cache.{Sector, elem, is_some, take_dirty}
use upanix_os.Disk.Drive.{
  DiskDrive, raw_write, write_cached, drive_write, flush_loop, flush_dirty_cache_sectors,
}
use upanix_os.Disk.Coherent.{content, cached, dirty, listed, IsCoherent, ==_refl, ==_sym}
use upanix_os.Disk.Written.{within}
use upanix_os.Disk.Breaks.{write_cached-Moved}
use mathlib.Core.Path.{subst}

-- A drive whose cache is coherent and enabled, and a request of `n` sectors within 32 bits, none of which the
-- cache lists to be replaced: the write succeeds, whatever was cached and however full the cache is. The drive
-- holds the buffer in the sectors of the request and what it held elsewhere, and is coherent again.
pub content-drive_write :
    (sector n : ℕ) (buffer : ℕ → Sector) (d : DiskDrive)
    → IsCoherent d
    → d.enable_disk_cache ≡ true
    → sector + d.lba_start_sector + n < 2 ^ 32
    → ((i : ℕ) → i < n → listed d (sector + d.lba_start_sector + i) ≡ false)
    → (u : DiskDrive) × (drive_write sector n buffer d ≡ some u)
      × IsCoherent u
      × (u.enable_disk_cache ≡ true)
      × ((i : ℕ) → i < n → content u (sector + d.lba_start_sector + i) ≡ buffer i)
      × ((j : ℕ)
          → (j < sector + d.lba_start_sector) ⊎ (sector + d.lba_start_sector + n ≤ j)
          → content u j ≡ content d j)
unfolding drive_write
content-drive_write sector n buffer d h on small apart =
    let start = sector + d.lba_start_sector in
    let fits : start % 2 ^ 32 ≡ start = omega (arith, small) in
    let fits' : (start + n) % 2 ^ 32 ≡ start + n = omega (arith, small) in
    let (u, e, m) = write_cached-Moved buffer start (start + n) d h (λ j le lt.
      subst (λ k. listed d k ≡ false) (omega (arith, le))
        (apart (j - start) (omega (arith, le, lt)))) in
    (
      u,
      if_cases (λ o. o ≡ some u) d.enable_disk_cache _ _
          (λ t.
            ap (λ a. write_cached buffer a ((a + n) % 2 ^ 32) d) fits
            ∙ ap (λ b. write_cached buffer start b d) fits'
            ∙ e)
          (λ f. absurd (ground (arith, f, on))),
      m.coherent,
      m.same_drive.0 ∙ on,
      (λ i lt.
          m.holds (start + i)
          ∙ if_cases (λ x. x ≡ buffer i) (within start (start + n - start) (start + i)) _ _
              (λ t. ap buffer (omega arith)) (λ f. absurd (ground (arith, f, lt)))),
      λ j out.
          m.holds j
          ∙ if_cases (λ x. x ≡ content d j) (within start (start + n - start) j) _ _
              (λ t. absurd (ground (arith, t, out))) (λ f. refl),
    )

-- What one sector of a flush leads to
record Flushed (d u : DiskDrive) : Type 0 where
  coherent : IsCoherent u
  holds : (j : ℕ) → content u j ≡ content d j

flush_one :
    (k : ℕ) (ks : List ℕ) (v : Sector) (d : DiskDrive)
    → IsCoherent d
    → d.cache.dirty_cache_list ≡ k ∷ ks
    → d.cache.tree k ≡ some v
    → Flushed d (raw_write k v (record d { cache = record d.cache { dirty_cache_list = ks } }))
unfolding raw_write elem
flush_one k ks v d h l e =
    let marks : (j : ℕ) → dirty d j ≡ ((k == j) || elem j ks) = λ j. ap (elem j) l in
    let held : (j : ℕ) → (j == k) ≡ true → d.cache.tree j ≡ some v =
      λ j t. ap d.cache.tree ((==_iff j k).0 t) ∙ e in
    record {
      coherent = record {
        dirty_cached = λ j m. h.dirty_cached j (ground (arith, marks j, m));
        clean_same = λ j m. elim (Bool-cases (j == k)) [
          | inl t ↦ rw (t, held j t) refl
          | inr n ↦ rw n (h.clean_same j (ground (arith, marks j, m, ==_sym j k n)))
        ];
        listed_cached = h.listed_cached;
        listed_once = h.listed_once;
      };
      holds = λ j. elim (Bool-cases (j == k)) [ inl t ↦ rw (t, held j t) refl | inr n ↦ rw n refl ];
    }

value_of : (k : ℕ) (d : DiskDrive) → cached d k ≡ true → (v : Sector) × (d.cache.tree k ≡ some v)
value_of k d c = elim (Option-cases (d.cache.tree k)) [
  | inl e ↦ absurd (ground (arith, c, ap is_some e))
  | inr r ↦ r
]

has_first : (k : ℕ) (ks : List ℕ) → elem k (k ∷ ks) ≡ true
unfolding elem
has_first k ks = rw (==_refl k) refl

not_in_none : (j : ℕ) → elem j [] ≡ false
unfolding elem
not_in_none j = refl

kept_list :
    (k : ℕ) (v : Sector) (ks : List ℕ) (d : DiskDrive)
    → (raw_write k v
        (record d { cache = record d.cache { dirty_cache_list = ks } })).cache.dirty_cache_list
      ≡ ks
unfolding raw_write
kept_list k v ks d = refl

flush_loop_more :
    (n k : ℕ) (ks : List ℕ) (v : Sector) (d : DiskDrive) (o : Option DiskDrive)
    → d.cache.dirty_cache_list ≡ k ∷ ks
    → d.cache.tree k ≡ some v
    → flush_loop n (raw_write k v (record d { cache = record d.cache { dirty_cache_list = ks } }))
      ≡ o
    → flush_loop (suc n) d ≡ o
unfolding flush_loop take_dirty
flush_loop_more n k ks v d o l e eq = rw (l, e) eq

flush_loop-Flushed :
    (n : ℕ) (ks : List ℕ) (d : DiskDrive)
    → d.cache.dirty_cache_list ≡ ks
    → IsCoherent d
    → length ks ≤ n
    → (u : DiskDrive) × (flush_loop n d ≡ some u) × Flushed d u × (u.cache.dirty_cache_list ≡ [])
unfolding flush_loop take_dirty
flush_loop-Flushed zero [] d l h le = (d, refl, record { coherent = h; holds = λ j. refl }, l)
flush_loop-Flushed zero (k ∷ ks) d l h le = absurd (omega (arith, le))
flush_loop-Flushed (suc n) [] d l h le =
    (d, rw l refl, record { coherent = h; holds = λ j. refl }, l)
flush_loop-Flushed (suc n) (k ∷ ks) d l h le =
    let (v, e) = value_of k d (h.dirty_cached k (ap (elem k) l ∙ has_first k ks)) in
    let f = flush_one k ks v d h l e in
    let (u, eq, g, none_left) =
      flush_loop-Flushed n ks
        (raw_write k v (record d { cache = record d.cache { dirty_cache_list = ks } }))
        (kept_list k v ks d) f.coherent (omega (arith, le)) in
    (
      u,
      flush_loop_more n k ks v d (some u) l e eq,
      record { coherent = g.coherent; holds = λ j. g.holds j ∙ f.holds j },
      none_left,
    )

-- A coherent cache that is enabled and a count of at least the dirty sectors: the flush succeeds. The drive
-- holds what it held, no sector is dirty, and the disk has all that the drive holds.
pub disk-flush_dirty_cache_sectors :
    (n : ℕ) (d : DiskDrive)
    → IsCoherent d
    → d.enable_disk_cache ≡ true
    → length d.cache.dirty_cache_list ≤ n
    → (u : DiskDrive) × (flush_dirty_cache_sectors n d ≡ some u)
      × IsCoherent u
      × (u.cache.dirty_cache_list ≡ [])
      × ((j : ℕ) → (content u j ≡ content d j) × (u.disk j ≡ content d j))
unfolding flush_dirty_cache_sectors
disk-flush_dirty_cache_sectors n d h on le =
    let (u, e, f, none_left) = flush_loop-Flushed n d.cache.dirty_cache_list d refl h le in
    (
      u,
      if_cases (λ o. o ≡ some u) d.enable_disk_cache _ _ (λ t. e)
          (λ f. absurd (ground (arith, f, on))),
      f.coherent,
      none_left,
      λ j. (
        f.holds j,
        sym (f.coherent.clean_same j (ap (elem j) none_left ∙ not_in_none j)) ∙ f.holds j,
      ),
    )
