-- ===== src/Disk/Cache.antt =====
-- drivers/DiskCache.cpp and drivers/DiskCache.h: the cached sectors of a drive, by their number, the dirty
-- ones and those that may be replaced.
use upanix_os.Base.{
  ℕ, ◌-◌, suc, Bool, true, false, ◌||◌, Option, none, some, List, [], ◌∷◌, ◌++◌, leb, ◌==◌,
  if◌then◌else◌,
}

-- The bytes of a sector.
abbrev pub Sector : Type 0
Sector = List ℕ

-- The tree is the values by their keys and the number of them. The entries of the dirty list point to values
-- of the tree.
pub record DiskCache : Type 0 where
  pub tree : ℕ → Option Sector
  pub total_elements : ℕ
  pub dirty_cache_list : List ℕ
  pub release_list : List ℕ
  pub release_list_built : Bool

abbrev pub max_cache_sectors : ℕ
max_cache_sectors = 32

-- upan::find with the comparison of sector numbers
unfoldable pub elem : ℕ → List ℕ → Bool
elem k [] = false
elem k (x ∷ xs) = (x == k) || elem k xs

abbrev pub is_some {ℓ} : {A : Type ℓ} → Option A → Bool
is_some none = false
is_some (some _) = true

-- Full
unfoldable pub cache_full : DiskCache → Bool
cache_full c = leb max_cache_sectors c.total_elements

abbrev pub with_value : ℕ → Option Sector → DiskCache → DiskCache
with_value k v c = record c { tree = λ j. if j == k then v else c.tree j }

-- Insert of the tree
unfoldable pub tree_insert : ℕ → Sector → DiskCache → Option DiskCache
tree_insert k v c =
    if is_some (c.tree k)
    then none
    else some (record (with_value k (some v) c) { total_elements = suc c.total_elements })

-- Delete of the tree
unfoldable pub tree_delete : ℕ → DiskCache → Option DiskCache
tree_delete k c =
    if is_some (c.tree k)
    then some (record (with_value k none c) { total_elements = c.total_elements - 1 })
    else none

-- InsertToDirtyList
unfoldable pub insert_to_dirty_list : ℕ → DiskCache → DiskCache
unfolding elem
insert_to_dirty_list k c =
    if elem k c.dirty_cache_list
    then c
    else record c { dirty_cache_list = c.dirty_cache_list ++ k ∷ [] }

-- Get
unfoldable pub take_dirty : DiskCache → Option (ℕ × DiskCache)
take_dirty c = elim c.dirty_cache_list [
  | [] ↦ none
  | k ∷ ks ↦ some (k, record c { dirty_cache_list = ks })
]

-- The loop of LFUSectorManager::ReplaceCache: the first sector that is not dirty, and the list behind it.
unfoldable pub next_clean : List ℕ → List ℕ → Option (ℕ × List ℕ)
unfolding elem
next_clean dirty [] = none
next_clean dirty (x ∷ xs) = if elem x dirty then next_clean dirty xs else some (x, xs)

abbrev pub is_empty : List ℕ → Bool
is_empty [] = true
is_empty (_ ∷ _) = false

-- The sector that is replaced goes, the new one comes.
unfoldable pub exchange : ℕ → Sector → ℕ → List ℕ → DiskCache → Bool × DiskCache
unfolding tree_insert tree_delete
exchange k v x rest c = elim (tree_delete x (record c { release_list = rest })) [
  | none ↦ (false, record c { release_list = rest })
  | some c1 ↦ elim (tree_insert k v c1) [
    | none ↦ (false, c1)
    | some c2 ↦ (
      true,
      record c2 { release_list_built = if is_empty rest then false else c2.release_list_built },
    )
  ]
]

-- LFUSectorManager::ReplaceCache. A list that is empty ends like one of dirty sectors only.
unfoldable pub replace_cache : ℕ → Sector → DiskCache → Bool × DiskCache
unfolding next_clean exchange
replace_cache k v c =
    if c.release_list_built
    then elim (next_clean c.dirty_cache_list c.release_list) [
      | none ↦ (true, record c { release_list = []; release_list_built = false })
      | some (x, rest) ↦ exchange k v x rest c
    ]
    else (true, c)
