-- ===== src/Disk/Coherent.antt =====
-- drivers/DiskCache.cpp: the cache and the disk agree, and each operation of the cache keeps that so.
use upanix_os.Base.{
  ℕ, ◌==◌, Bool, true, false, ◌||◌, Option, none, some, suc, ◌-◌, inl, inr, List, [], ◌∷◌, ◌++◌,
  ◌≡◌, refl, sym, ap, ◌∙◌, arith, if◌then◌else◌, if_cases, Bool-cases, ==_iff,
}
use upanix_os.Disk.Cache.{
  Sector, DiskCache, elem, is_some, with_value, tree_insert, tree_delete, insert_to_dirty_list,
}
use upanix_os.Disk.Drive.{DiskDrive, raw_write}

abbrev pub or_disk : Option Sector → Sector → Sector
or_disk none v = v
or_disk (some w) v = w

-- What a drive holds: the cached values, and what stands on the disk elsewhere.
abbrev pub content : DiskDrive → ℕ → Sector
content d k = or_disk (d.cache.tree k) (d.disk k)

abbrev pub cached : DiskDrive → ℕ → Bool
cached d k = is_some (d.cache.tree k)

abbrev pub listed : DiskDrive → ℕ → Bool
listed d k = elem k d.cache.release_list

abbrev pub dirty : DiskDrive → ℕ → Bool
dirty d k = elem k d.cache.dirty_cache_list

abbrev pub Once : List ℕ → Type 0
Once [] = Unit
Once (x ∷ xs) = (elem x xs ≡ false) × Once xs

pub record IsCoherent (d : DiskDrive) : Type 0 where
  pub dirty_cached : (k : ℕ) → dirty d k ≡ true → cached d k ≡ true
  pub clean_same : (k : ℕ) → dirty d k ≡ false → content d k ≡ d.disk k
  pub listed_cached : (k : ℕ) → listed d k ≡ true → cached d k ≡ true
  pub listed_once : Once d.cache.release_list

-- A step that handles sector `k`: the drive is coherent, holds `f` then, lists no other sectors for
-- replacement and keeps all that are not listed.
pub record Step (k : ℕ) (f : ℕ → Sector) (d u : DiskDrive) : Type 0 where
  pub coherent : IsCoherent u
  pub holds : (j : ℕ) → content u j ≡ f j
  pub lists : (j : ℕ) → listed d j ≡ false → listed u j ≡ false
  pub stays : (j : ℕ) → (j == k) ≡ false → listed d j ≡ false → cached u j ≡ cached d j
  pub same_drive :
      (u.enable_disk_cache ≡ d.enable_disk_cache) × (u.lba_start_sector ≡ d.lba_start_sector)

pub ==_refl : (k : ℕ) → (k == k) ≡ true
==_refl k = (==_iff k k).1 refl

pub ==_sym : (j k : ℕ) → (j == k) ≡ false → (k == j) ≡ false
==_sym j k e = elim (Bool-cases (k == j)) [
  | inl t ↦ absurd (ground (arith, e, (==_iff j k).1 (sym ((==_iff k j).0 t))))
  | inr f ↦ f
]

-- A test that tells two sectors apart
pub differ : (f : ℕ → Bool) (i j : ℕ) → f i ≡ true → f j ≡ false → (i == j) ≡ false
differ f i j a b = elim (Bool-cases (i == j)) [
  | inl t ↦ absurd (ground (arith, a, b, ap f ((==_iff i j).0 t)))
  | inr n ↦ n
]

pub elem-end : (k j : ℕ) (xs : List ℕ) → elem k (xs ++ j ∷ []) ≡ elem k xs || (j == k)
unfolding elem
elem-end k j [] = ground arith
elem-end k j (x ∷ xs) = rw (elem-end k j xs) (ground arith)

-- The dirty list holds the sector then, and the others that it held.
pub elem-insert_to_dirty_list :
    (k j : ℕ) (c : DiskCache)
    → elem j (insert_to_dirty_list k c).dirty_cache_list ≡ (k == j) || elem j c.dirty_cache_list
unfolding insert_to_dirty_list
elem-insert_to_dirty_list k j c =
    if_cases (λ (u : DiskCache). elem j u.dirty_cache_list ≡ (k == j) || elem j c.dirty_cache_list)
      (elem k c.dirty_cache_list) c _
      (λ t. elim (Bool-cases (k == j)) [
        | inl e ↦ rw e (ap (λ x. elem x c.dirty_cache_list) (sym ((==_iff k j).0 e)) ∙ t)
        | inr e ↦ rw e refl
      ])
      λ f. rw (elem-end j k c.dirty_cache_list) (ground arith)

pub or_disk-uncached : (o : Option Sector) (v : Sector) → is_some o ≡ false → or_disk o v ≡ v
or_disk-uncached none v e = refl
or_disk-uncached (some w) v e = absurd (ground (arith, e))

-- The tree at a sector is that at an equal one.
same_sector : (j k : ℕ) (d : DiskDrive) → (j == k) ≡ true → cached d j ≡ cached d k
same_sector j k d e = ap (cached d) ((==_iff j k).0 e)

-- A sector that is written to the disk and not cached
pub raw_write-Step :
    (k : ℕ) (v : Sector) (d : DiskDrive)
    → IsCoherent d
    → cached d k ≡ false
    → Step k (λ j. if j == k then v else content d j) d (raw_write k v d)
unfolding raw_write
raw_write-Step k v d h un = record {
  coherent = record {
    dirty_cached = h.dirty_cached;
    clean_same = λ j cl. elim (Bool-cases (j == k)) [
      | inl e ↦ rw e (or_disk-uncached (d.cache.tree j) v (same_sector j k d e ∙ un))
      | inr e ↦ rw e (h.clean_same j cl)
    ];
    listed_cached = h.listed_cached;
    listed_once = h.listed_once;
  };
  holds = λ j. elim (Bool-cases (j == k)) [
    | inl e ↦ rw e (or_disk-uncached (d.cache.tree j) v (same_sector j k d e ∙ un))
    | inr e ↦ rw e refl
  ];
  lists = λ j e. e;
  stays = λ j e f. refl;
  same_drive = (refl, refl);
}

-- The tree may gain a sector that the disk has.
pub tree_insert-Step :
    (k : ℕ) (d : DiskDrive)
    → IsCoherent d
    → cached d k ≡ false
    → (c : DiskCache) × (tree_insert k (d.disk k) d.cache ≡ some c)
      × Step k (content d) d (record d { cache = c })
unfolding tree_insert
tree_insert-Step k d h un =
    let c : DiskCache = record (with_value k (some (d.disk k)) d.cache) {
      total_elements = suc d.cache.total_elements;
    } in
    let grown : (j : ℕ) → cached d j ≡ true → is_some (c.tree j) ≡ true =
      λ j e. if_cases (λ (o : Option Sector). is_some o ≡ true) (j == k) _ _ (λ t. refl) (λ f. e) in
    let same : (j : ℕ) → or_disk (c.tree j) (d.disk j) ≡ content d j = λ j.
      if_cases (λ o. or_disk o (d.disk j) ≡ content d j) (j == k) _ _
        (λ t.
          ap d.disk (sym ((==_iff j k).0 t))
          ∙ sym (or_disk-uncached (d.cache.tree j) (d.disk j) (same_sector j k d t ∙ un)))
        (λ f. refl) in
    (
      c,
      ap (λ b. if b then none else some c) un,
      record {
        coherent = record {
          dirty_cached = λ j e. grown j (h.dirty_cached j e);
          clean_same = λ j e. same j ∙ h.clean_same j e;
          listed_cached = λ j e. grown j (h.listed_cached j e);
          listed_once = h.listed_once;
        };
        holds = same;
        lists = λ j e. e;
        stays = λ j e f. rw e refl;
        same_drive = (refl, refl);
      },
    )

-- The tree may lose a clean sector.
pub tree_delete-Step :
    (k x : ℕ) (rest : List ℕ) (d : DiskDrive)
    → IsCoherent d
    → ((j : ℕ) → elem j rest ≡ true → listed d j ≡ true)
    → Once rest
    → elem x rest ≡ false
    → listed d x ≡ true
    → dirty d x ≡ false
    → (c : DiskCache) × (tree_delete x (record d.cache { release_list = rest }) ≡ some c)
      × ((j : ℕ) → cached d j ≡ false → is_some (c.tree j) ≡ false)
      × Step k (content d) d (record d { cache = c })
unfolding tree_delete
tree_delete-Step k x rest d h sub once apart li cl =
    let c : DiskCache = record (with_value x none (record d.cache { release_list = rest })) {
      total_elements = d.cache.total_elements - 1;
    } in
    let kept : (j : ℕ) → (j == x) ≡ false → is_some (c.tree j) ≡ cached d j = λ j n. rw n refl in
    let same : (j : ℕ) → or_disk (c.tree j) (d.disk j) ≡ content d j = λ j.
      if_cases (λ o. or_disk o (d.disk j) ≡ content d j) (j == x) _ _
        (λ t. sym (h.clean_same j (ap (dirty d) ((==_iff j x).0 t) ∙ cl))) (λ f. refl) in
    (
      c,
      ap (λ b. if b then some c else none) (h.listed_cached x li),
      (λ j e.
          if_cases (λ (o : Option Sector). is_some o ≡ false) (j == x) _ _ (λ t. refl) (λ f. e)),
      record {
        coherent = record {
          dirty_cached = λ j e. kept j (differ (dirty d) j x e cl) ∙ h.dirty_cached j e;
          clean_same = λ j e. same j ∙ h.clean_same j e;
          listed_cached =
              λ j e. kept j (differ (λ i. elem i rest) j x e apart) ∙ h.listed_cached j (sub j e);
          listed_once = once;
        };
        holds = same;
        lists = λ j e. elim (Bool-cases (elem j rest)) [
          | inl t ↦ absurd (ground (arith, e, sub j t))
          | inr f ↦ f
        ];
        stays = λ j e f. kept j (==_sym x j (differ (listed d) x j li f));
        same_drive = (refl, refl);
      },
    )
