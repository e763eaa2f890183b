-- ===== src/FileSystem/Table/Lookup.antt =====
-- Looking up the block of a sector in the cache.
use upanix_os.Base.{
  ℕ, ◌^◌, ◌<◌, ◌≡◌, refl, sym, ap, ◌∙◌, Option, none, some, arith, length, inl, inr, Option-cases,
}
use upanix_os.FileSystem.Table.{
  Block, block_at, Table, block_id, get_sector_entry_from_cache, cached,
}
use upanix_os.FileSystem.Table.Words.{Inv}
use upanix_os.FileSystem.Table.Cached.{find_block}
use upanix_os.FileSystem.Table.Entry.{Alike, Alike-refl, search_cases, add_to_table_cache-Ready}

-- What `GetSectorEntryFromCache` answers, by what is cached.
from_cache-some :
    (sector_id : ℕ) (t : Table) (b : Block)
    → Inv t
    → find_block t.cache (block_id sector_id) ≡ some b
    → (p : ℕ) × (get_sector_entry_from_cache sector_id t ≡ some p)
      × (p < length t.cache)
      × (block_at t.cache p ≡ b)
unfolding get_sector_entry_from_cache
from_cache-some sector_id t b inv e = elim (search_cases t (block_id sector_id) inv) [
  | inl (p, q, h, _, found) ↦ (p, rw q (ground arith), h, ground arith)
  | inr (_, _, _, missing) ↦ absurd (ground arith)
]

from_cache-none :
    (sector_id : ℕ) (t : Table)
    → Inv t
    → find_block t.cache (block_id sector_id) ≡ none
    → get_sector_entry_from_cache sector_id t ≡ none
unfolding get_sector_entry_from_cache
from_cache-none sector_id t inv e = elim (search_cases t (block_id sector_id) inv) [
  | inl (_, _, _, _, found) ↦ absurd (ground arith)
  | inr (p, q, _, _) ↦ rw q (ground arith)
]

-- The lookup of both operations finds the sector's block, in a table that reads as `t`.
pub record Hit (sector_id : ℕ) (t : Table) (r : Table × Option ℕ) : Type 0 where
  pub at : ℕ
  pub hit : r.1 ≡ some at
  pub within : at < length r.0.cache
  pub alike : Alike t r.0
  pub inv : Inv r.0
  pub found : find_block r.0.cache (block_id sector_id) ≡ some (block_at r.0.cache at)

pub cached-Hit :
    (sector_id : ℕ) (t : Table) → Inv t → sector_id < 2 ^ 32 → Hit sector_id t (cached sector_id t)
unfolding cached
cached-Hit sector_id t inv h = elim (Option-cases (find_block t.cache (block_id sector_id))) [
  | inr (b, e) ↦
      let (p, q, w, same) = from_cache-some sector_id t b inv e in
      rw (q, cached)
        (record {
          at = p;
          hit = refl;
          within = w;
          alike = Alike-refl t;
          inv = inv;
          found = e ∙ ap some (sym same);
        })
  | inl e ↦
      let r = add_to_table_cache-Ready sector_id t inv h in
      let (p, q, w, same) = from_cache-some sector_id _ r.present.0 r.inv r.present.1 in
      rw (from_cache-none sector_id t inv e, cached)
        (record {
          at = p;
          hit = q;
          within = w;
          alike = r.alike;
          inv = r.inv;
          found = r.present.1 ∙ ap some (sym same);
        })
]
