-- ===== src/FileSystem/Table/Replace.antt =====
-- A cached block read from or written to, and the table that it leaves.
use mathlib.Core.Path.{subst}
use upanix_os.Base.{
  ℕ, ◌+◌, ◌-◌, ◌*◌, ◌%◌, ◌^◌, ◌<◌, ◌≡◌, ap, ◌∙◌, ◌≢◌, some, arith, length, set, get_or, get_or-set,
  length-set, ◌==◌, if◌then◌else◌, Bool-cases, inl, inr, Option-cases, ==_iff,
}
use upanix_os.FileSystem.Table.{
  Block, block_at, Table, get_table_sector_id, block_id, block_offset, read, write,
}
use upanix_os.FileSystem.Table.Flush.{Unsaturated}
use upanix_os.FileSystem.Table.Words.{words, Inv}
use upanix_os.FileSystem.Table.Cached.{find_block, find_block-id, find_block-set, IsSorted-set}
use upanix_os.FileSystem.Table.Entry.{Alike}

-- The 32-bit word of a sector in the table that drive and cache make together, and its entry.
abbrev pub raw : Table → ℕ → ℕ
raw t s = get_or (words t (block_id s)) (block_offset s) 0

abbrev pub entry : Table → ℕ → ℕ
entry t s = raw t s % 2 ^ 28

-- A block put back at its place, with its id kept.
module _ (t : Table) (inv : Inv t) (p : ℕ) (b : Block) (within : p < length t.cache)
    (found : find_block t.cache b.id ≡ some (block_at t.cache p))
    (clean : b.write_count ≡ 0 → b.sector_block ≡ t.disk (get_table_sector_id t.geometry b.id))
    (whole : length b.sector_block ≡ 128) where
  abbrev replaced : Table
  replaced = record t { cache = set t.cache p b }

  same_place : (block_at t.cache p).id ≡ b.id
  same_place = find_block-id t.cache b.id (block_at t.cache p) found

  find_block-replaced :
      (id : ℕ)
      → find_block replaced.cache id ≡ (if b.id == id then some b else find_block t.cache id)
  find_block-replaced id =
      find_block-set t.cache p id b within same_place
        (λ i lt. omega (arith, inv.sorted i p lt within, same_place))

  words-replaced :
      (id : ℕ) → words replaced id ≡ (if b.id == id then b.sector_block else words t id)
  words-replaced id = elim (Bool-cases (b.id == id)) [
    | inl e ↦ rw (find_block-replaced id, e)
    | inr e ↦ rw (find_block-replaced id, e)
  ]

  replaced-Inv : Inv replaced
  replaced-Inv = record {
    sorted = IsSorted-set t.cache p b inv.sorted within same_place;
    clean = λ id c e z. ground (
      arith,
      find_block-replaced id,
      inv.clean id c,
      clean,
      λ (q : b.id ≡ id). ap (λ k. t.disk (get_table_sector_id t.geometry k)) q,
    );
    small = λ id c e.
        ground (
          arith,
          find_block-replaced id,
          inv.small id c,
          inv.small b.id (block_at t.cache p) found,
        );
    reserved = inv.reserved;
    whole_disk = inv.whole_disk;
    whole = λ id c e. ground (arith, find_block-replaced id, inv.whole id c);
  }

  -- The words of a sector, where the block's are those of `words` but for one entry.
  raw-replaced :
      (s i v : ℕ)
      → i < 128
      → b.sector_block ≡ set (words t b.id) i v
      → length (words t b.id) ≡ 128
      → raw replaced s ≡ (if b.id * 128 + i == s then v else raw t s)
  raw-replaced s i v h e len = rw words-replaced (elim (Bool-cases (b.id == block_id s)) [
    | inr q ↦ rw q (ground arith)
    | inl q ↦
        let same : b.id ≡ block_id s = ground arith in
        rw (q, e, same)
          (rw
            (get_or-set (words t (block_id s)) i (block_offset s) v 0
              (subst (λ k. i < length (words t k)) same (rw len h)))
            (ground arith))
  ])

-- The words of every table sector are 128.
length-words : (t : Table) (id : ℕ) → Inv t → length (words t id) ≡ 128
length-words t id inv = elim (Option-cases (find_block t.cache id)) [
  | inl e ↦ rw e (inv.whole_disk _)
  | inr (b, e) ↦ rw e (inv.whole id b e)
]

-- The block that a lookup found, read from or written to.
module _ (sector_id : ℕ) (h : sector_id < 2 ^ 32) (t u : Table) (p : ℕ)
    (within : p < length u.cache) (alike : Alike t u) (inv : Inv u)
    (found : find_block u.cache (block_id sector_id) ≡ some (block_at u.cache p)) where
  abbrev hit : Block
  hit = block_at u.cache p

  hit-id : hit.id ≡ block_id sector_id
  hit-id = find_block-id u.cache (block_id sector_id) hit found

  found_hit : find_block u.cache hit.id ≡ some hit
  found_hit = rw hit-id found

  hit_words : hit.sector_block ≡ words t (block_id sector_id)
  hit_words = rw found at (alike.same_words (block_id sector_id) (omega arith))

  hit_whole : length hit.sector_block ≡ 128
  hit_whole = inv.whole (block_id sector_id) hit found

  unfoldable pub after_read : Table
  unfolding read
  after_read = record u { cache = set u.cache p (read hit sector_id).1 }

  pub after_read-Inv : Inv after_read
  unfolding after_read read
  after_read-Inv =
      replaced-Inv u inv p (read hit sector_id).1 within found_hit (inv.clean hit.id hit found_hit)
        hit_whole

  after_read-words : (id : ℕ) → words after_read id ≡ words u id
  unfolding after_read read
  after_read-words id =
      words-replaced u inv p (read hit sector_id).1 within found_hit
        (inv.clean hit.id hit found_hit) hit_whole id
      ∙ (elim (Bool-cases (hit.id == id)) [
        | inr e ↦ rw e
        | inl e ↦ rw (e, ← (==_iff hit.id id).0 e, found_hit)
      ])

  pub after_read-Alike : Alike t after_read
  unfolding after_read read
  after_read-Alike = record {
    same_geometry = alike.same_geometry;
    same_words = λ id hid. after_read-words id ∙ alike.same_words id hid;
    same_used = alike.same_used;
    counts = λ un id b e. ground (
      arith,
      find_block-replaced u inv p (read hit sector_id).1 within found_hit
          (inv.clean hit.id hit found_hit) hit_whole id,
      alike.counts un id b,
      alike.counts un hit.id hit found_hit,
    );
  }

  pub read_value : (read hit sector_id).0 ≡ entry t sector_id
  unfolding read
  read_value = rw hit_words

  abbrev new_word : ℕ → ℕ
  new_word value = raw t sector_id - raw t sector_id % 2 ^ 28 + value % 2 ^ 28

  unfoldable pub after_write : ℕ → Table
  unfolding write
  after_write value = record u { cache = set u.cache p (write hit sector_id value) }

  module _ (unsaturated : Unsaturated u) (value : ℕ) where
    write_dirty : (write hit sector_id value).write_count ≢ 0
    unfolding write
    write_dirty = omega (arith, unsaturated hit.id hit found_hit)

    write_whole : length (write hit sector_id value).sector_block ≡ 128
    unfolding write
    write_whole = omega (arith, hit_whole, length-set hit.sector_block (block_offset sector_id))

    pub after_write-Inv : Inv (after_write value)
    unfolding after_write write
    after_write-Inv =
        replaced-Inv u inv p (write hit sector_id value) within found_hit
          (λ z. absurd (write_dirty z)) write_whole

    pub after_write-raw :
        (s : ℕ)
        → s < 2 ^ 32
        → raw (after_write value) s ≡ (if sector_id == s then new_word value else raw t s)
    unfolding after_write write
    after_write-raw s hs =
        raw-replaced u inv p (write hit sector_id value) within found_hit
          (λ z. absurd (write_dirty z)) write_whole s (block_offset sector_id) (new_word value)
          (omega arith) (rw (found_hit, ← hit_words)) (rw found_hit hit_whole)
        ∙ rw (place, raw_alike)
      where
        place : hit.id * 128 + block_offset sector_id ≡ sector_id
        place = omega (arith, hit-id)

        raw_alike : raw u s ≡ raw t s
        raw_alike =
            ap (λ ws. get_or ws (block_offset s) 0) (alike.same_words (block_id s) (omega arith))
