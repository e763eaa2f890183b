-- ===== src/FileSystem/Table/Flush.antt =====
-- `FlushTableCache`: what it leaves on the drive and in the cache.
use upanix_os.Base.{
  ℕ, ◌+◌, ◌^◌, ◌≤◌, ◌<◌, ◌≡◌, ap, List, none, some, arith, length, take, drop, if◌then◌else◌, ltb,
  Bool-cases, inl, inr, Option-cases, sym, ◌∙◌, take_all,
}
use upanix_os.FileSystem.Table.{Block, Table, get_table_sector_id, flush_blocks, flush_table_cache}
use upanix_os.FileSystem.Table.Cached.{
  find_block, find_block-take, find_block-take_absent, find_block-drop, IsSorted-drop,
}
use upanix_os.FileSystem.Table.Words.{
  Inv, words, words_or, max_blocks, flushed_words, flush_blocks-words, flush_blocks-length,
}

-- The table after the first `n` blocks were written back, and then dropped or kept.
module _ (t : Table) (inv : Inv t) (n : ℕ) where
  abbrev flushed : ℕ → List ℕ
  flushed = flush_blocks t.geometry n t.cache t.disk

  abbrev dropping : Table
  dropping = record t { disk = flushed; cache = drop n t.cache }

  abbrev keeping : Table
  keeping = record t { disk = flushed }

  flushed-words :
      (id : ℕ)
      → id < max_blocks
      → flushed (get_table_sector_id t.geometry id)
        ≡ flushed_words
            (find_block (take n t.cache) id)
            (t.disk (get_table_sector_id t.geometry id))
  flushed-words id h =
      flush_blocks-words t.geometry inv.reserved n t.cache t.disk id inv.sorted inv.small h

  -- A flushed block's words are on the drive, whether they were written or not.
  flushed_of_some :
      (id : ℕ) (b : Block)
      → find_block (take n t.cache) id ≡ some b
      → flushed (get_table_sector_id t.geometry id) ≡ b.sector_block
  flushed_of_some id b e =
      let whole = (find_block-drop n t.cache id b inv.sorted e).1 in
      rw (flushed-words id (inv.small id b whole), e) (ground (arith, inv.clean id b whole))

  flushed_of_none :
      (id : ℕ)
      → id < max_blocks
      → find_block (take n t.cache) id ≡ none
      → flushed (get_table_sector_id t.geometry id) ≡ t.disk (get_table_sector_id t.geometry id)
  flushed_of_none id h e = rw (flushed-words id h, e)

  words-dropping : (id : ℕ) → id < max_blocks → words dropping id ≡ words t id
  words-dropping id h = elim (Option-cases (find_block (take n t.cache) id)) [
    | inl e ↦
        rw (find_block-take n t.cache id inv.sorted e)
          (ap (words_or (find_block t.cache id)) (flushed_of_none id h e))
    | inr (b, e) ↦
        let d = find_block-drop n t.cache id b inv.sorted e in
        rw (d.0, d.1) (flushed_of_some id b e)
  ]

  words-keeping : (id : ℕ) → id < max_blocks → words keeping id ≡ words t id
  words-keeping id h = elim (Option-cases (find_block t.cache id)) [
    | inl e ↦ rw e (flushed_of_none id h (find_block-take_absent n t.cache id e))
    | inr (b, e) ↦ rw e
  ]

  flushed_all :
      (id : ℕ)
      → length t.cache ≤ n
      → id < max_blocks
      → flushed (get_table_sector_id t.geometry id) ≡ words t id
  flushed_all id all h = elim (Option-cases (find_block t.cache id)) [
    | inl e ↦ rw e (flushed_of_none id h (find_block-take_absent n t.cache id e))
    | inr (b, e) ↦ rw e (flushed_of_some id b (rw (take_all n t.cache all) e))
  ]

  find_block-dropping :
      (id : ℕ) (b : Block)
      → find_block (drop n t.cache) id ≡ some b
      → (find_block (take n t.cache) id ≡ none) × (find_block t.cache id ≡ some b)
  find_block-dropping id b e = elim (Option-cases (find_block (take n t.cache) id)) [
    | inl q ↦ (q, sym (find_block-take n t.cache id inv.sorted q) ∙ e)
    | inr (c, q) ↦ absurd (ground (arith, find_block-drop n t.cache id c inv.sorted q))
  ]

  dropping-Inv : Inv dropping
  dropping-Inv = record {
    sorted = IsSorted-drop n t.cache inv.sorted;
    clean = λ id b e z.
        let d = find_block-dropping id b e in
        inv.clean id b d.1 z ∙ sym (flushed_of_none id (inv.small id b d.1) d.0);
    small = λ id b e. inv.small id b (find_block-dropping id b e).1;
    reserved = inv.reserved;
    whole_disk = λ s.
        flush_blocks-length t.geometry inv.reserved n t.cache t.disk s inv.whole inv.sorted
          inv.whole_disk;
    whole = λ id b e. inv.whole id b (find_block-dropping id b e).1;
  }

  keeping-Inv : Inv keeping
  keeping-Inv = record {
    sorted = inv.sorted;
    clean = λ id b e z. elim (Option-cases (find_block (take n t.cache) id)) [
      | inl q ↦ inv.clean id b e z ∙ sym (flushed_of_none id (inv.small id b e) q)
      | inr (c, q) ↦
          ground (arith, flushed_of_some id c q, find_block-drop n t.cache id c inv.sorted q)
    ];
    small = inv.small;
    reserved = inv.reserved;
    whole_disk = λ s.
        flush_blocks-length t.geometry inv.reserved n t.cache t.disk s inv.whole inv.sorted
          inv.whole_disk;
    whole = inv.whole;
  }

-- On a well-formed table a flush of any size keeps the table well formed, and every table sector below
-- 2 ^ 25, the number of them that sectors of 32 bits have, reads as before.
pub flush_table_cache-words :
    (flush_size : ℕ) (t : Table)
    → Inv t
    → Inv (flush_table_cache flush_size t)
      × ((id : ℕ) → id < max_blocks → words (flush_table_cache flush_size t) id ≡ words t id)
unfolding flush_table_cache
flush_table_cache-words flush_size t inv =
    either (if ltb (length t.cache) flush_size then length t.cache else flush_size)
  where
    either :
        (n : ℕ)
        → Inv (record t {
          disk = flushed t inv n;
          cache = if ltb n (length t.cache) then drop n t.cache else t.cache;
        })
          × ((id : ℕ)
              → id < max_blocks
              → words
                  (record t {
                    disk = flushed t inv n;
                    cache = if ltb n (length t.cache) then drop n t.cache else t.cache;
                  })
                  id
                ≡ words t id)
    either n = elim (Bool-cases (ltb n (length t.cache))) [
      | inl e ↦ rw e (dropping-Inv t inv n, words-dropping t inv n)
      | inr e ↦ rw e (keeping-Inv t inv n, words-keeping t inv n)
    ]

-- No block was written to so often that one more write makes its 32-bit count 0 again.
abbrev pub Unsaturated : Table → Type 0
Unsaturated t = (id : ℕ) (b : Block) → find_block t.cache id ≡ some b → b.write_count + 1 < 2 ^ 32

pub flush_table_cache-Unsaturated :
    (flush_size : ℕ) (t : Table)
    → Inv t
    → Unsaturated t
    → Unsaturated (flush_table_cache flush_size t)
unfolding flush_table_cache
flush_table_cache-Unsaturated flush_size t inv u id b e =
    either (if ltb (length t.cache) flush_size then length t.cache else flush_size) e
  where
    either :
        (n : ℕ)
        → find_block (if ltb n (length t.cache) then drop n t.cache else t.cache) id ≡ some b
        → b.write_count + 1 < 2 ^ 32
    either n e = elim (Bool-cases (ltb n (length t.cache))) [
      | inl q ↦ u id b (find_block-dropping t inv n id b (rw q at e)).1
      | inr q ↦ u id b (rw q at e)
    ]

-- On a well-formed table, after a flush of as many blocks as are cached or more, every table sector
-- below 2 ^ 25 is on the drive as it read before, from the cache where it was cached.
pub flush_all :
    (flush_size : ℕ) (t : Table) (id : ℕ)
    → Inv t
    → length t.cache ≤ flush_size
    → id < max_blocks
    → (flush_table_cache flush_size t).disk (get_table_sector_id t.geometry id) ≡ words t id
unfolding flush_table_cache
flush_all flush_size t id inv h hid = flushed_all t inv _ id (ground arith) hid
