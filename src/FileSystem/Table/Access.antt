-- ===== src/FileSystem/Table/Access.antt =====
-- `GetSectorEntryValue` and `SetSectorEntryValue` read and write one table, whatever is cached.
use upanix_os.Base.{
  ℕ, ◌+◌, ◌-◌, ◌%◌, ◌^◌, ◌≤◌, ◌<◌, ◌≡◌, refl, ap, ◌∙◌, Option, arith, ◌==◌, if◌then◌else◌,
  ltb-false, lt→ltb, Bool-cases, inl, inr,
}
use upanix_os.FileSystem.Table.{
  Table, cached, ok, err, invalid_cluster, get_sector_entry_value, set_sector_entry_value,
  read_entry, write_entry, update_used_sectors, cluster_limit, eoc,
}
use upanix_os.FileSystem.Table.Flush.{Unsaturated}
use upanix_os.FileSystem.Table.Words.{Inv}
use upanix_os.FileSystem.Table.Entry.{Alike}
use upanix_os.FileSystem.Table.Lookup.{Hit, cached-Hit}
use upanix_os.FileSystem.Table.Replace.{
  raw, entry, after_read, after_read-Inv, after_read-Alike, read_value, after_write,
  after_write-Inv, after_write-raw,
}

-- On a well-formed table a read of a sector in range returns its entry in the table that drive and cache
-- make together, keeps the table well formed, and leaves a table that reads alike, with the same used count.
pub get_sector_entry_value_lem :
    (sector_id : ℕ) (t : Table)
    → Inv t
    → sector_id < 2 ^ 32
    → sector_id ≤ cluster_limit t.geometry
    → (u : Table) × (get_sector_entry_value sector_id t ≡ ok (entry t sector_id, u))
      × Inv u
      × Alike t u
unfolding get_sector_entry_value after_read
get_sector_entry_value_lem sector_id t inv h le =
    rw (ltb-false (cluster_limit t.geometry) sector_id le)
      (finish (cached sector_id t) (cached-Hit sector_id t inv h))
  where
    finish :
        (r : Table × Option ℕ)
        → Hit sector_id t r
        → (u : Table) × (read_entry sector_id r ≡ ok (entry t sector_id, u)) × Inv u × Alike t u
    finish (u, o) x = rw x.hit (
      after_read sector_id h t u x.at x.within x.alike x.inv x.found,
      ap (λ v. ok (v, after_read sector_id h t u x.at x.within x.alike x.inv x.found))
          (read_value sector_id h t u x.at x.within x.alike x.inv x.found),
      after_read-Inv sector_id h t u x.at x.within x.alike x.inv x.found,
      after_read-Alike sector_id h t u x.at x.within x.alike x.inv x.found,
    )

-- A sector beyond the table is refused by both, before anything changes.
pub beyond_table :
    (sector_id value : ℕ) (t : Table)
    → cluster_limit t.geometry < sector_id
    → (get_sector_entry_value sector_id t ≡ err invalid_cluster)
      × (set_sector_entry_value sector_id value t ≡ err invalid_cluster)
unfolding get_sector_entry_value set_sector_entry_value
beyond_table sector_id value t h = rw (lt→ltb (cluster_limit t.geometry) sector_id h) (refl, refl)

-- `UpdateUsedSectors` touches the count alone.
update_used_sectors-Inv : (value : ℕ) (t : Table) → Inv t → Inv (update_used_sectors value t)
unfolding update_used_sectors
update_used_sectors-Inv value t inv = elim (Bool-cases (value == eoc)) [
  | inl e ↦ rw e (of_same t inv _)
  | inr e ↦ elim (Bool-cases (value == 0)) [
    | inl z ↦ rw (e, z) (of_same t inv _)
    | inr z ↦ rw (e, z) inv
  ]
]
  where
    of_same : (t : Table) → Inv t → (n : ℕ) → Inv (record t { used_sectors = n })
    of_same t inv n = record {
      sorted = inv.sorted;
      clean = inv.clean;
      small = inv.small;
      reserved = inv.reserved;
      whole_disk = inv.whole_disk;
      whole = inv.whole;
    }

update_used_sectors_same :
    (value : ℕ) (t : Table)
    → ((update_used_sectors value t).geometry ≡ t.geometry)
      × ((update_used_sectors value t).cache ≡ t.cache)
      × ((update_used_sectors value t).disk ≡ t.disk)
unfolding update_used_sectors
update_used_sectors_same value t = ground arith

-- The word that a write leaves: the entry's 28 bits are new, the 4 bits above are kept.
abbrev pub written : ℕ → ℕ → ℕ
written word value = word - word % 2 ^ 28 + value % 2 ^ 28

-- The used count after a write of `value`.
abbrev pub used_after : ℕ → ℕ → ℕ
used_after value used =
    if value == eoc
    then (used + 1) % 2 ^ 32
    else if value == 0
    then (used + 2 ^ 32 - 1) % 2 ^ 32
    else used

used_sectors-update_used_sectors :
    (value : ℕ) (t : Table)
    → (update_used_sectors value t).used_sectors ≡ used_after value t.used_sectors
unfolding update_used_sectors
used_sectors-update_used_sectors value t = ground arith

-- On a well-formed table in which no count of writes is about to wrap, a write to a sector in range
-- succeeds. It replaces the 28 bits of that sector's entry, keeps the 4 bits above them, the words of
-- every other sector and the geometry, counts the sector as used or unused by the value, and keeps the
-- table well formed.
pub set_sector_entry_value_lem :
    (sector_id value : ℕ) (t : Table)
    → Inv t
    → Unsaturated t
    → sector_id < 2 ^ 32
    → sector_id ≤ cluster_limit t.geometry
    → (u : Table) × (set_sector_entry_value sector_id value t ≡ ok u)
      × Inv u
      × ((s : ℕ)
          → s < 2 ^ 32
          → raw u s ≡ (if sector_id == s then written (raw t sector_id) value else raw t s))
      × (u.geometry ≡ t.geometry)
      × (u.used_sectors ≡ used_after value t.used_sectors)
unfolding set_sector_entry_value after_write
set_sector_entry_value_lem sector_id value t inv un h le =
    rw (ltb-false (cluster_limit t.geometry) sector_id le) (
      finish (cached sector_id t')
        (cached-Hit sector_id t' (update_used_sectors-Inv value t inv) h))
  where
    t' : Table
    t' = update_used_sectors value t

    same_raw : (s : ℕ) → raw t' s ≡ raw t s
    same_raw s = let (g, c, d) = update_used_sectors_same value t in rw (g, c, d)

    un' : Unsaturated t'
    un' = rw (update_used_sectors_same value t).1 un

    finish :
        (r : Table × Option ℕ)
        → Hit sector_id t' r
        → (u : Table) × (write_entry sector_id value r ≡ ok u)
          × Inv u
          × ((s : ℕ)
              → s < 2 ^ 32
              → raw u s ≡ (if sector_id == s then written (raw t sector_id) value else raw t s))
          × (u.geometry ≡ t.geometry)
          × (u.used_sectors ≡ used_after value t.used_sectors)
    finish (u, o) x = rw x.hit (
      after_write sector_id h t' u x.at x.within x.alike x.inv x.found value,
      refl,
      after_write-Inv sector_id h t' u x.at x.within x.alike x.inv x.found (x.alike.counts un')
          value,
      λ s hs.
          after_write-raw sector_id h t' u x.at x.within x.alike x.inv x.found (x.alike.counts un')
            value s hs
          ∙ rw (same_raw s, same_raw sector_id),
      x.alike.same_geometry ∙ (update_used_sectors_same value t).0,
      x.alike.same_used ∙ used_sectors-update_used_sectors value t,
    )
