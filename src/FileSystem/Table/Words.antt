-- ===== src/FileSystem/Table/Words.antt =====
-- The words that the table reads as, from the cache and the drive, and what a well-formed table is.
use mathlib.Core.Path.{subst}
use upanix_os.Base.{
  ℕ, zero, suc, ◌+◌, ◌%◌, ◌^◌, ◌<◌, ◌≡◌, refl, List, [], ◌∷◌, Option, none, some, arith, length,
  take, ◌==◌, if◌then◌else◌, Bool-cases, inl, inr, ==_iff,
}
use upanix_os.FileSystem.Table.{Block, Geometry, Table, get_table_sector_id, flush_blocks, update}
use upanix_os.FileSystem.Table.Find.{IsSorted}
use upanix_os.FileSystem.Table.Cached.{
  find_block, IsSorted-tail, IsSorted-head, find_block-take_absent, find_block-tail,
  find_block_self,
}

-- Ids stay below the number of blocks that 32-bit sector ids make.
abbrev pub max_blocks : ℕ
max_blocks = 2 ^ 25

-- The words of a table sector: those of its block, if it is cached, else those on the drive.
abbrev pub words_or : Option Block → List ℕ → List ℕ
words_or none words = words
words_or (some b) words = b.sector_block

abbrev pub words : Table → ℕ → List ℕ
words t id = words_or (find_block t.cache id) (t.disk (get_table_sector_id t.geometry id))

-- A cached block that was not written to is as on the drive. Every id is a table sector's.
pub record Inv (t : Table) : Type 0 where
  pub sorted : IsSorted t.cache
  pub clean :
      (id : ℕ) (b : Block)
      → find_block t.cache id ≡ some b
      → b.write_count ≡ 0
      → b.sector_block ≡ t.disk (get_table_sector_id t.geometry id)
  pub small : (id : ℕ) (b : Block) → find_block t.cache id ≡ some b → id < max_blocks
  pub reserved : t.rsvd_sec_cnt < 2 ^ 16
  pub whole_disk : (s : ℕ) → length (t.disk s) ≡ 128
  pub whole : (id : ℕ) (b : Block) → find_block t.cache id ≡ some b → length b.sector_block ≡ 128

-- What a flush leaves for a block, by what was cached among the flushed ones.
abbrev pub flushed_words : Option Block → List ℕ → List ℕ
flushed_words none words = words
flushed_words (some b) words = if b.write_count == 0 then words else b.sector_block

module _ (g : Geometry) (reserved : g.rsvd_sec_cnt < 2 ^ 16) where
  get_table_sector_id_inj :
      (a b : ℕ)
      → a < max_blocks
      → b < max_blocks
      → get_table_sector_id g a ≡ get_table_sector_id g b
      → a ≡ b
  unfolding get_table_sector_id
  get_table_sector_id_inj a b ha hb e = omega arith

  write_back : (b : Block) → (b.id + g.rsvd_sec_cnt + 1) % 2 ^ 32 ≡ get_table_sector_id g b.id
  unfolding get_table_sector_id
  write_back b = omega arith

  -- The drive after the round of one block.
  flush_block-words :
      (b : Block) (disk : ℕ → List ℕ) (id : ℕ)
      → b.id < max_blocks
      → id < max_blocks
      → (if b.write_count == 0
            then disk
            else update disk ((b.id + g.rsvd_sec_cnt + 1) % 2 ^ 32) b.sector_block)
          (get_table_sector_id g id)
        ≡ (if b.id == id
            then flushed_words (some b) (disk (get_table_sector_id g id))
            else disk (get_table_sector_id g id))
  flush_block-words b disk id hb h =
      rw (write_back b) (ground (arith, get_table_sector_id_inj b.id id hb h))

  abbrev AllSmall : List Block → Type 0
  AllSmall blocks = (i : ℕ) (b : Block) → find_block blocks i ≡ some b → i < max_blocks

  AllSmall-head : (b : Block) (blocks : List Block) → AllSmall (b ∷ blocks) → b.id < max_blocks
  unfolding find_block
  AllSmall-head b blocks small = small b.id b (ground arith)

  AllSmall-tail : (b : Block) (blocks : List Block) → AllSmall (b ∷ blocks) → AllSmall blocks
  unfolding find_block
  AllSmall-tail b blocks small i c e = elim (Bool-cases (b.id == i)) [
    | inl q ↦ small i b (rw q)
    | inr q ↦ small i c (rw q e)
  ]

  pub flush_blocks-words :
      (n : ℕ) (blocks : List Block) (disk : ℕ → List ℕ) (id : ℕ)
      → IsSorted blocks
      → AllSmall blocks
      → id < max_blocks
      → flush_blocks g n blocks disk (get_table_sector_id g id)
        ≡ flushed_words (find_block (take n blocks) id) (disk (get_table_sector_id g id))
  unfolding flush_blocks find_block
  flush_blocks-words zero blocks disk id s small h = refl
  flush_blocks-words (suc n) [] disk id s small h = refl
  flush_blocks-words (suc n) (b ∷ blocks) disk id s small h =
      rw
        (
          flush_blocks-words n blocks _ id (IsSorted-tail b blocks s) (AllSmall-tail b blocks small)
              h,
          flush_block-words b disk id (AllSmall-head b blocks small) h,
        )
        (elim (Bool-cases (b.id == id)) [
          | inr e ↦ rw e
          | inl e ↦
              let q = (==_iff b.id id).0 e in
              rw (
                e,
                find_block-take_absent n blocks id
                    (subst (λ k. find_block blocks k ≡ none) q (IsSorted-head b blocks s)),
              )
        ])

  pub flush_blocks-length :
      (n : ℕ) (blocks : List Block) (disk : ℕ → List ℕ) (s : ℕ)
      → ((id : ℕ) (b : Block) → find_block blocks id ≡ some b → length b.sector_block ≡ 128)
      → IsSorted blocks
      → ((s : ℕ) → length (disk s) ≡ 128)
      → length (flush_blocks g n blocks disk s) ≡ 128
  unfolding flush_blocks
  flush_blocks-length zero blocks disk s whole sorted h = h s
  flush_blocks-length (suc n) [] disk s whole sorted h = h s
  flush_blocks-length (suc n) (b ∷ blocks) disk s whole sorted h =
      flush_blocks-length n blocks _ s
        (λ id c e. whole id c (find_block-tail b blocks id c sorted e))
        (IsSorted-tail b blocks sorted)
        (λ r. ground (arith, h r, whole b.id b (find_block_self b blocks)))
