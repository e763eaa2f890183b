-- ===== src/FileSystem/Table/Entry.antt =====
-- Reading and writing sector entries: how the tables before and after agree, and that a sector gets cached.
use mathlib.Core.Path.{subst}
use upanix_os.Base.{
  ℕ, ◌^◌, ◌<◌, ◌≡◌, refl, ap, ◌∙◌, Bool, true, false, none, some, arith, length, insert_at, ◌==◌,
  if◌then◌else◌, Bool-cases, inl, inr, ◌⊎◌,
}
use upanix_os.FileSystem.Table.{
  Block, block_at, Table, get_table_sector_id, block_id, binary_search, load, insert_block,
  add_to_table_cache, flush_table_cache, max_sectors_in_table_cache,
}
use upanix_os.FileSystem.Table.Find.{Finds, binary_search-Finds}
use upanix_os.FileSystem.Table.Flush.{
  Unsaturated, flush_table_cache-words, flush_table_cache-Unsaturated,
}
use upanix_os.FileSystem.Table.Words.{max_blocks, words_or, words, Inv}
use upanix_os.FileSystem.Table.Cached.{
  find_block, find_block-id, find_block-found, find_block-missing, find_block-insert_at,
  IsSorted-insert_at,
}

-- `u` reads as `t` does: it has the same geometry, and the same words in every table sector.
pub record Alike (t u : Table) : Type 0 where
  pub same_geometry : u.geometry ≡ t.geometry
  pub same_words : (id : ℕ) → id < max_blocks → words u id ≡ words t id
  pub same_used : u.used_sectors ≡ t.used_sectors
  pub counts : Unsaturated t → Unsaturated u

pub Alike-refl : (t : Table) → Alike t t
Alike-refl t = record {
  same_geometry = refl;
  same_words = λ id h. refl;
  same_used = refl;
  counts = λ u. u;
}

Alike-trans : {t u v : Table} → Alike t u → Alike u v → Alike t v
Alike-trans a b = record {
  same_geometry = b.same_geometry ∙ a.same_geometry;
  same_words = λ id h. b.same_words id h ∙ a.same_words id h;
  same_used = b.same_used ∙ a.same_used;
  counts = λ u. b.counts (a.counts u);
}

-- The two answers of the search, with what they say of the cache.
pub search_cases :
    (t : Table) (id : ℕ)
    → Inv t
    → ((p : ℕ) × (binary_search t.cache id ≡ (true, p))
        × (p < length t.cache)
        × ((block_at t.cache p).id ≡ id)
        × (find_block t.cache id ≡ some (block_at t.cache p)))
      ⊎ ((p : ℕ) × (binary_search t.cache id ≡ (false, p))
          × Finds t.cache id (false, p)
          × (find_block t.cache id ≡ none))
search_cases t id inv =
    go (binary_search t.cache id) refl (binary_search-Finds t.cache id inv.sorted).1
  where
    go :
        (r : Bool × ℕ)
        → binary_search t.cache id ≡ r
        → Finds t.cache id r
        → ((p : ℕ) × (binary_search t.cache id ≡ (true, p))
            × (p < length t.cache)
            × ((block_at t.cache p).id ≡ id)
            × (find_block t.cache id ≡ some (block_at t.cache p)))
          ⊎ ((p : ℕ) × (binary_search t.cache id ≡ (false, p))
              × Finds t.cache id (false, p)
              × (find_block t.cache id ≡ none))
    go (true, p) e f = inl (p, e, f.0, f.1, find_block-found t.cache p id inv.sorted f)
    go (false, p) e f = inr (p, e, f, find_block-missing t.cache p id f)

-- What `insert_block` makes of a table in which the block is not cached.
module _ (t : Table) (inv : Inv t) (sector_id p : ℕ) (h : sector_id < 2 ^ 32)
    (f : Finds t.cache (block_id sector_id) (false, p))
    (missing : find_block t.cache (block_id sector_id) ≡ none) where
  abbrev loaded : Block
  loaded = load t.geometry t.disk sector_id

  abbrev inserted : Table
  inserted = record t { cache = insert_at p loaded t.cache }

  find_block-inserted :
      (id : ℕ)
      → find_block inserted.cache id
        ≡ (if block_id sector_id == id then some loaded else find_block t.cache id)
  unfolding load
  find_block-inserted id = find_block-insert_at t.cache p id loaded f.0 missing

  words-inserted : (id : ℕ) → words inserted id ≡ words t id
  unfolding load
  words-inserted id = elim (Bool-cases (block_id sector_id == id)) [
    | inr e ↦ rw (find_block-inserted id, e)
    | inl e ↦
        let q : block_id sector_id ≡ id = ground arith in
        rw (find_block-inserted id, e)
          (subst
            (λ k.
              t.disk (get_table_sector_id t.geometry (block_id sector_id))
              ≡ words_or (find_block t.cache k) (t.disk (get_table_sector_id t.geometry k)))
            q (rw missing))
  ]

  inserted-Alike : Alike t inserted
  unfolding load
  inserted-Alike = record {
    same_geometry = refl;
    same_words = λ id h. words-inserted id;
    same_used = refl;
    counts = λ u id b e. ground (arith, find_block-inserted id, u id b);
  }

  inserted-Inv : Inv inserted
  unfolding load
  inserted-Inv = record {
    sorted = IsSorted-insert_at t.cache p loaded inv.sorted f;
    clean = λ id b e z. ground (
      arith,
      find_block-inserted id,
      inv.clean id b,
      ap (λ k. t.disk (get_table_sector_id t.geometry k)) (same_id id b e),
    );
    small = λ id b e. ground (arith, find_block-inserted id, inv.small id b);
    reserved = inv.reserved;
    whole_disk = inv.whole_disk;
    whole = λ id b e. ground (
      arith,
      find_block-inserted id,
      inv.whole id b,
      inv.whole_disk (get_table_sector_id t.geometry (block_id sector_id)),
    );
  }
    where
      same_id : (id : ℕ) (b : Block) → find_block inserted.cache id ≡ some b → b.id ≡ id
      same_id id b e = find_block-id inserted.cache id b e

  inserted-present : find_block inserted.cache (block_id sector_id) ≡ some loaded
  inserted-present = rw (find_block-inserted (block_id sector_id)) (ground arith)

-- The block of the sector is cached in a table that reads as `t`.
pub record Ready (sector_id : ℕ) (t u : Table) : Type 0 where
  pub alike : Alike t u
  pub inv : Inv u
  pub present : (b : Block) × (find_block u.cache (block_id sector_id) ≡ some b)

insert_block-Ready :
    (sector_id : ℕ) (t : Table)
    → Inv t
    → sector_id < 2 ^ 32
    → Ready sector_id t (insert_block sector_id t)
unfolding insert_block
insert_block-Ready sector_id t inv h = elim (search_cases t (block_id sector_id) inv) [
  | inl (p, e, _, _, found) ↦
      rw e (record { alike = Alike-refl t; inv = inv; present = (block_at t.cache p, found) })
  | inr (p, e, f, missing) ↦ rw e (record {
    alike = inserted-Alike t inv sector_id p h f missing;
    inv = inserted-Inv t inv sector_id p h f missing;
    present =
        (loaded t inv sector_id p h f missing, inserted-present t inv sector_id p h f missing);
  })
]

flush-Ready-base : (n : ℕ) (t : Table) → Inv t → Alike t (flush_table_cache n t)
unfolding flush_table_cache
flush-Ready-base n t inv = record {
  same_geometry = refl;
  same_words = (flush_table_cache-words n t inv).1;
  same_used = refl;
  counts = flush_table_cache-Unsaturated n t inv;
}

-- On a well-formed table, for a sector of 32 bits, `AddToTableCache` caches the sector's block, keeps the
-- table well formed and changes what no table sector reads as, whether or not it has to evict a block.
pub add_to_table_cache-Ready :
    (sector_id : ℕ) (t : Table)
    → Inv t
    → sector_id < 2 ^ 32
    → Ready sector_id t (add_to_table_cache sector_id t)
unfolding add_to_table_cache
add_to_table_cache-Ready sector_id t inv h =
    elim (Bool-cases (length t.cache == max_sectors_in_table_cache)) [
      | inr e ↦ rw e (insert_block-Ready sector_id t inv h)
      | inl e ↦
          let r =
            insert_block-Ready sector_id (flush_table_cache 1 t) (flush_table_cache-words 1 t inv).0
              h in
          rw e (record {
            alike = Alike-trans (flush-Ready-base 1 t inv) r.alike;
            inv = r.inv;
            present = r.present;
          })
    ]
