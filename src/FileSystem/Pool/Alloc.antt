-- ===== src/FileSystem/Pool/Alloc.antt =====
-- `AllocateSector` and `FileSystem_DeAllocateSector` against the table and the pool's contents.
use upanix_os.Base.{
  ℕ, ◌*◌, ◌%◌, ◌^◌, ◌<◌, ◌≡◌, refl, sym, ap, ◌∙◌, ◌≢◌, ◌⊎◌, inl, inr, List, [], ◌∷◌, ◌++◌, arith,
  get_or, All, Distinct, if◌then◌else◌, Bool-cases,
}
use upanix_os.FileSystem.Table.{
  Table, Result, ok, err, no_free_sectors, eoc, set_sector_entry_value, cluster_limit, block_id,
  block_offset,
}
use upanix_os.FileSystem.Table.Flush.{Unsaturated}
use upanix_os.FileSystem.Table.Words.{Inv}
use upanix_os.FileSystem.Table.Entry.{Alike}
use upanix_os.FileSystem.Table.Replace.{entry}
use upanix_os.FileSystem.Table.Access.{
  used_after, get_sector_entry_value_lem, set_sector_entry_value_lem,
}
use upanix_os.FileSystem.Pool.{
  Queue, load_free_sectors, allocate_sector, take_front, deallocate_sector,
}
use upanix_os.FileSystem.Pool.Scan.{IsSized, IsFree}

-- A sector of the table is in range of both operations.
limit_of_sized : (t : Table) → IsSized t.geometry → cluster_limit t.geometry ≡ t.fs_table_size * 128
limit_of_sized t m = rw m.sector_size (omega (arith, m.fits))

Alike-entry : (t u : Table) (s : ℕ) → s < 2 ^ 32 → Alike t u → entry u s ≡ entry t s
Alike-entry t u s h a =
    ap (λ ws. get_or ws (block_offset s) 0 % 2 ^ 28) (a.same_words (block_id s) (omega arith))

-- What a write to one sector does to the entries.
abbrev pub Sets : ℕ → ℕ → Table → Table → Type 0
Sets id value t u =
    (entry u id ≡ value)
    × ((s : ℕ) → s < 2 ^ 32 → s ≢ id → entry u s ≡ entry t s)
    × Inv u
    × (u.used_sectors ≡ used_after value t.used_sectors)
    × (u.geometry ≡ t.geometry)

set_Sets :
    (id value : ℕ) (t : Table)
    → Inv t
    → Unsaturated t
    → IsSized t.geometry
    → id < t.fs_table_size * 128
    → value < 2 ^ 28
    → (u : Table) × (set_sector_entry_value id value t ≡ ok u) × Sets id value t u
set_Sets id value t inv un m h hv =
    let (u, e, i, r, g, c) =
      set_sector_entry_value_lem id value t inv un (omega (arith, m.fits))
        (rw (limit_of_sized t m) (omega arith)) in
    (u, e, (ground (arith, r id), λ s hs ne. ground (arith, r s hs), i, c, g))

-- After an allocation the rest of a pool of free sectors is still free, and the sector is not in it
-- again, if no sector was in the pool twice.
pub Sets-All-IsFree :
    (t u : Table) (x : ℕ) (xs : List ℕ)
    → IsSized t.geometry
    → Sets x eoc t u
    → All (IsFree t) xs
    → Distinct (x ∷ xs)
    → All (IsFree u) xs
Sets-All-IsFree t u x [] m s f d = tt
Sets-All-IsFree t u x (y ∷ ys) m s f d = (
  (rw s.4 f.0.0, s.1 y (omega (arith, m.fits, f.0.0)) (λ e. d.0.0 (sym e)) ∙ f.0.1),
  Sets-All-IsFree t u x ys m s f.1 (d.0.1, d.1.1),
)

module _ (𝒬 : Queue) where
  open 𝒬 use {Q, contents, empty, push_back, front, pop_front}

  -- The pool that `AllocateSector` takes from: an empty one is filled first.
  abbrev pub refilled : Table → Q → Q
  refilled t q = if empty q then load_free_sectors 𝒬 t q else q

  -- An allocation from the pool `pool`.
  abbrev pub Grants : Table → List ℕ → Result (ℕ × Table × Q) → Type 0
  Grants t [] r = r ≡ err no_free_sectors
  Grants t (x ∷ xs) r =
      (u : Table) × (q : Q) × (r ≡ ok (x, u, q)) × (contents q ≡ xs) × Sets x eoc t u

  -- On a well-formed table of sectors of 512 bytes, whose size in bytes fits 32 bits and in which no count of
  -- writes is about to wrap: where the pool, refilled if it was empty, holds free sectors only, an allocation
  -- succeeds unless that pool is empty, and then it has no free sectors. It takes the oldest sector, marks it
  -- as the end of a chain, and leaves the entries of all other sectors and a well-formed table.
  pub allocate_sector-Grants :
      (t : Table) (q : Q)
      → Inv t
      → Unsaturated t
      → IsSized t.geometry
      → All (IsFree t) (contents (refilled t q))
      → Grants t (contents (refilled t q)) (allocate_sector 𝒬 t q)
  unfolding allocate_sector
  allocate_sector-Grants t q inv un m free = from (refilled t q) (contents (refilled t q)) refl free
    where
      from :
          (q : Q) (xs : List ℕ)
          → contents q ≡ xs
          → All (IsFree t) xs
          → Grants t xs (take_front 𝒬 t q)
      from q [] e f = rw (𝒬.empty_nil q e)
      from q (x ∷ xs) e f =
          let (u, done, s) = set_Sets x eoc t inv un m f.0.0 (omega arith) in
          rw (𝒬.empty_cons q x xs e, 𝒬.front_head q x xs e, done)
            (u, pop_front q, refl, 𝒬.pop_tail q x xs e, s)

  -- On a well-formed table of sectors of 512 bytes, whose size in bytes fits 32 bits and in which no
  -- count of writes is about to wrap, a sector of the table that is given back becomes free, while
  -- the entries of all other sectors stay and the table stays well formed. The pool has it at its
  -- end or is as it was. The result is the sector that came after it in its chain.
  pub deallocate_sector_lem :
      (id : ℕ) (t : Table) (q : Q)
      → Inv t
      → Unsaturated t
      → IsSized t.geometry
      → id < t.fs_table_size * 128
      → (u : Table) × (q' : Q) × (deallocate_sector 𝒬 id t q ≡ ok (entry t id, u, q'))
        × Sets id 0 t u
        × ((contents q' ≡ contents q) ⊎ (contents q' ≡ contents q ++ id ∷ []))
  unfolding deallocate_sector
  deallocate_sector_lem id t q inv un m h =
      let (t1, got, i, a) =
        get_sector_entry_value_lem id t inv (omega (arith, m.fits))
          (rw (limit_of_sized t m) (omega arith)) in
      let (u, done, s) =
        set_Sets id 0 t1 i (a.counts un) (rw a.same_geometry m) (rw a.same_geometry h)
          (omega arith) in
      rw (got, done)
        (
          u,
          (push_back q id).0,
          refl,
          (
            s.0,
            λ r hr ne. s.1 r hr ne ∙ Alike-entry t t1 r hr a,
            s.2,
            s.3 ∙ ap (used_after 0) a.same_used,
            s.4 ∙ a.same_geometry,
          ),
          elim (Bool-cases (push_back q id).1) [
            | inl e ↦ inr (𝒬.pushed q id e)
            | inr e ↦ inl (𝒬.refused q id e)
          ],
        )
