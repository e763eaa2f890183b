-- ===== src/FileSystem/Table/Tests.antt =====
-- Runs of the table, and its theorems at concrete inputs.
use upanix_os.Base.{
  ℕ, ◌^◌, ◌<◌, ◌≡◌, ◌≢◌, refl, none, length, List, [], ◌∷◌, arith, replicate, ◌==◌, if◌then◌else◌,
}
use upanix_os.FileSystem.Table.{
  Block, Table, ok, search_loop, binary_search, flush_table_cache, add_to_table_cache,
  get_sector_entry_value, set_sector_entry_value, eoc,
}
use upanix_os.FileSystem.Table.Cached.{find_block}
use upanix_os.FileSystem.Table.Find.{IsSorted, Finds, binary_search-Finds}
use upanix_os.FileSystem.Table.Flush.{Unsaturated, flush_table_cache-words}
use upanix_os.FileSystem.Table.Words.{max_blocks, words, Inv}
use upanix_os.FileSystem.Table.Entry.{Alike, Ready, add_to_table_cache-Ready}
use upanix_os.FileSystem.Table.Replace.{raw, entry}
use upanix_os.FileSystem.Table.Access.{
  written, get_sector_entry_value_lem, set_sector_entry_value_lem, used_after,
}

abbrev blank : List ℕ
blank = replicate 128 0

-- Block 1, in which sector 128 was given to a chain that ends there.
abbrev dirty_block : Block
dirty_block = record {
  sector_block = eoc ∷ replicate 127 0;
  id = 1;
  read_count = 0;
  write_count = 1;
}

abbrev small_table : Table
small_table = record {
  geometry = record { bytes_per_sec = 512; rsvd_sec_cnt = 2; fs_table_size = 4 };
  used_sectors = 2;
  cache = dirty_block ∷ [];
  disk = λ s. blank;
}

small_table-IsSorted : IsSorted small_table.cache
small_table-IsSorted i j lt h = absurd (omega arith)

small_table-Inv : Inv small_table
unfolding find_block
small_table-Inv = record {
  sorted = small_table-IsSorted;
  clean = λ id b e z. absurd (ground arith);
  small = λ id b e. ground arith;
  reserved = omega arith;
  whole_disk = λ s. refl;
  whole = λ id b e. ground arith;
}

small_table-Unsaturated : Unsaturated small_table
unfolding find_block
small_table-Unsaturated id b e = ground arith

binary_search-Finds_example :
    (search_loop (length small_table.cache) small_table.cache 1 0 (length small_table.cache) none
      ≢ none)
    × Finds small_table.cache 1 (binary_search small_table.cache 1)
binary_search-Finds_example = binary_search-Finds small_table.cache 1 small_table-IsSorted

flush_table_cache-words_example :
    Inv (flush_table_cache 5 small_table)
    × ((id : ℕ)
        → id < max_blocks
        → words (flush_table_cache 5 small_table) id ≡ words small_table id)
flush_table_cache-words_example = flush_table_cache-words 5 small_table small_table-Inv

add_to_table_cache-Ready_example : Ready 300 small_table (add_to_table_cache 300 small_table)
add_to_table_cache-Ready_example =
    add_to_table_cache-Ready 300 small_table small_table-Inv (omega arith)

get_sector_entry_value_example :
    (u : Table) × (get_sector_entry_value 128 small_table ≡ ok (entry small_table 128, u))
    × Inv u
    × Alike small_table u
get_sector_entry_value_example =
    get_sector_entry_value_lem 128 small_table small_table-Inv (omega arith) (omega arith)

set_sector_entry_value_example :
    (u : Table) × (set_sector_entry_value 5 7 small_table ≡ ok u)
    × Inv u
    × ((s : ℕ)
        → s < 2 ^ 32
        → raw u s ≡ (if 5 == s then written (raw small_table 5) 7 else raw small_table s))
    × (u.geometry ≡ small_table.geometry)
    × (u.used_sectors ≡ used_after 7 2)
set_sector_entry_value_example =
    set_sector_entry_value_lem 5 7 small_table small_table-Inv small_table-Unsaturated (omega arith)
      (omega arith)
