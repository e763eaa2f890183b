-- ===== src/Disk/Stored.antt =====
-- drivers/DiskCache.cpp and drivers/DeviceDrive.cpp: what one sector of a read or a write does to the drive.
use upanix_os.Base.{
  ℕ, ◌==◌, Bool, true, false, ◌||◌, none, some, suc, inl, inr, ◌≡◌, refl, sym, ap, ◌∙◌, arith,
  if◌then◌else◌, if_cases, option_some, Bool-cases, ==_iff,
}
use upanix_os.Disk.Cache.{
  Sector, DiskCache, elem, is_some, cache_full, with_value, tree_insert, insert_to_dirty_list,
  replace_cache,
}
use upanix_os.Disk.Drive.{DiskDrive, raw_write, store_found, store_missing, keep_missing}
use upanix_os.Disk.Coherent.{
  content, cached, dirty, Once, IsCoherent, Step, or_disk, ==_refl, ==_sym,
  elem-insert_to_dirty_list, raw_write-Step, tree_insert-Step,
}
use mathlib.Core.Path.{subst}
use upanix_os.Disk.Replaced.{Step-trans, replace_cache-Step}

insert_to_dirty_list-tree :
    (k : ℕ) (c : DiskCache)
    → ((j : ℕ) → (insert_to_dirty_list k c).tree j ≡ c.tree j)
      × ((insert_to_dirty_list k c).release_list ≡ c.release_list)
unfolding insert_to_dirty_list
insert_to_dirty_list-tree k c =
    if_cases
      (λ (u : DiskCache). ((j : ℕ) → u.tree j ≡ c.tree j) × (u.release_list ≡ c.release_list))
      (elem k c.dirty_cache_list) _ _ (λ t. ((λ j. refl), refl)) (λ f. ((λ j. refl), refl))

tree_insert-writes :
    (k : ℕ) (v : Sector) (d : DiskDrive)
    → cached d k ≡ false
    → (c : DiskCache) × (tree_insert k v d.cache ≡ some c)
      × ((j : ℕ) → c.tree j ≡ (if j == k then some v else d.cache.tree j))
      × (c.dirty_cache_list ≡ d.cache.dirty_cache_list)
      × (c.release_list ≡ d.cache.release_list)
unfolding tree_insert
tree_insert-writes k v d un =
    let c : DiskCache = record (with_value k (some v) d.cache) {
      total_elements = suc d.cache.total_elements;
    } in
    (c, ap (λ b. if b then none else some c) un, (λ j. refl), refl, refl)

-- The cache has the new value, which is dirty.
written-Step :
    (k : ℕ) (v : Sector) (d : DiskDrive) (c : DiskCache)
    → IsCoherent d
    → ((j : ℕ) → c.tree j ≡ (if j == k then some v else d.cache.tree j))
    → ((j : ℕ) → elem j c.dirty_cache_list ≡ (k == j) || dirty d j)
    → c.release_list ≡ d.cache.release_list
    → Step k (λ j. if j == k then v else content d j) d (record d { cache = c })
written-Step k v d c h tree marks release =
    let u : DiskDrive = record d { cache = c } in
    let here : (j : ℕ) → (j == k) ≡ true → cached u j ≡ true =
      λ j t. ap is_some (tree j) ∙ (rw t refl) in
    let elsewhere : (j : ℕ) → (j == k) ≡ false → c.tree j ≡ d.cache.tree j =
      λ j n. tree j ∙ (rw n refl) in
    let grown : (j : ℕ) → ((j == k) ≡ false → cached d j ≡ true) → cached u j ≡ true = λ j f.
      elim (Bool-cases (j == k)) [ inl t ↦ here j t | inr n ↦ ap is_some (elsewhere j n) ∙ f n ] in
    record {
      coherent = record {
        dirty_cached =
            λ j e. grown j (λ n. h.dirty_cached j (ground (arith, e, marks j, ==_sym j k n)));
        clean_same = λ j e. elim (Bool-cases (j == k)) [
          | inl t ↦ absurd (ground (arith, e, marks j, (==_iff k j).1 (sym ((==_iff j k).0 t))))
          | inr n ↦
              ap (λ o. or_disk o (d.disk j)) (elsewhere j n)
              ∙ h.clean_same j (ground (arith, e, marks j))
        ];
        listed_cached = λ j e. grown j (λ n. h.listed_cached j (sym (ap (elem j) release) ∙ e));
        listed_once = subst Once (sym release) h.listed_once;
      };
      holds = λ j.
          ap (λ o. or_disk o (d.disk j)) (tree j)
          ∙ elim (Bool-cases (j == k)) [ inl t ↦ rw t refl | inr n ↦ rw n refl ];
      lists = λ j e. ap (elem j) release ∙ e;
      stays = λ j n e. ap is_some (elsewhere j n);
      same_drive = (refl, refl);
    }

-- A sector that was found is written: the drive holds it, and it is dirty.
pub store_found-Step :
    (k : ℕ) (v : Sector) (d : DiskDrive)
    → IsCoherent d
    → cached d k ≡ true
    → (u : DiskDrive) × (store_found k v d ≡ some u)
      × Step k (λ j. if j == k then v else content d j) d u
unfolding store_found
store_found-Step k v d h c =
    let with_v : DiskCache = with_value k (some v) d.cache in
    let (tree, release) = insert_to_dirty_list-tree k with_v in
    let u : DiskDrive = record d { cache = insert_to_dirty_list k with_v } in
    (
      u,
      ap (λ b. if b then some u else none) c,
      written-Step k v d (insert_to_dirty_list k with_v) h tree
          (λ j. elem-insert_to_dirty_list k j with_v) release,
    )

written_value : (k : ℕ) (v : Sector) (d : DiskDrive) → (raw_write k v d).disk k ≡ v
unfolding raw_write
written_value k v d = rw (==_refl k) refl

-- A sector that was not found is written: it comes into the cache, or to the disk when that is full.
pub store_missing-Step :
    (fallback : DiskDrive → DiskDrive) (k : ℕ) (v : Sector) (d : DiskDrive)
    → IsCoherent d
    → cached d k ≡ false
    → (u : DiskDrive) × (store_missing fallback k v d ≡ (true, u))
      × Step k (λ j. if j == k then v else content d j) d u
unfolding store_missing raw_write
store_missing-Step fallback k v d h un =
    if_cases
      (λ (r : Bool × DiskDrive).
        (u : DiskDrive) × (r ≡ (true, u)) × Step k (λ j. if j == k then v else content d j) d u)
      (cache_full d.cache) _ _
      (λ f.
        let s1 = raw_write-Step k v d h un in
        let (c, e, s2) = replace_cache-Step k (raw_write k v d) s1.coherent un in
        let e' : replace_cache k v d.cache ≡ (true, c) =
          ap (λ x. replace_cache k x d.cache) (sym (written_value k v d)) ∙ e in
        (
          record (raw_write k v d) { cache = c },
          rw e' refl,
          Step-trans k _ d (raw_write k v d) _ s1 s2,
        ))
      λ f.
        let (c, e, tree, same, release) = tree_insert-writes k v d un in
        let (tree', release') = insert_to_dirty_list-tree k c in
        let u : DiskDrive = record d { cache = insert_to_dirty_list k c } in
        (
          u,
          option_some (λ (r : Bool × DiskDrive). r ≡ (true, u)) _ c _ _ e refl,
          written-Step k v d (insert_to_dirty_list k c) h (λ j. tree' j ∙ tree j)
              (λ j. elem-insert_to_dirty_list k j c ∙ ap (λ l. (k == j) || elem j l) same)
              (release' ∙ release),
        )

-- A sector that was read comes into the cache where there is room for it: the drive holds what it held.
pub keep_missing-Step :
    (k : ℕ) (d : DiskDrive)
    → IsCoherent d
    → cached d k ≡ false
    → (u : DiskDrive) × (keep_missing k (d.disk k) d ≡ (true, u)) × Step k (content d) d u
unfolding keep_missing
keep_missing-Step k d h un =
    if_cases (λ (r : Bool × DiskDrive). (u : DiskDrive) × (r ≡ (true, u)) × Step k (content d) d u)
      (cache_full d.cache) _ _
      (λ f. let (c, e, s) = replace_cache-Step k d h un in (record d { cache = c }, rw e refl, s))
      λ f.
        let (c, e, s) = tree_insert-Step k d h un in
        (
          record d { cache = c },
          option_some (λ (r : Bool × DiskDrive). r ≡ (true, record d { cache = c })) _ c _ _ e refl,
          s,
        )
