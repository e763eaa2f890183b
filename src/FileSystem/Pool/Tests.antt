-- ===== src/FileSystem/Pool/Tests.antt =====
-- The pool at concrete inputs, over queues that are lists.
use upanix_os.Base.{
  ℕ, ◌≡◌, refl, ◌⊎◌, Bool, true, false, List, [], ◌∷◌, ◌++◌, arith, length, replicate, All, ltb,
  if◌then◌else◌,
}
use upanix_os.FileSystem.Table.{Table, ok, eoc}
use upanix_os.FileSystem.Table.Cached.{find_block}
use upanix_os.FileSystem.Table.Flush.{Unsaturated}
use upanix_os.FileSystem.Table.Words.{Inv}
use upanix_os.FileSystem.Table.Replace.{entry}
use upanix_os.FileSystem.Pool.{Queue, load_free_sectors, allocate_sector, deallocate_sector}
use upanix_os.FileSystem.Pool.Scan.{IsSized, IsMounted, IsFree, IsFlushed, load_free_sectors-All}
use upanix_os.FileSystem.Pool.Alloc.{Sets, Grants, allocate_sector-Grants, deallocate_sector_lem}
use upanix_os.FileSystem.Pool.Stale.{load_free_sectors_stale}

abbrev is_empty : List ℕ → Bool
is_empty [] = true
is_empty (x ∷ xs) = false

abbrev head_or_zero : List ℕ → ℕ
head_or_zero [] = 0
head_or_zero (x ∷ xs) = x

abbrev rest_of : List ℕ → List ℕ
rest_of [] = []
rest_of (x ∷ xs) = xs

-- A queue of at most `cap` numbers.
abbrev add_below : ℕ → List ℕ → ℕ → List ℕ × Bool
add_below cap q x = if ltb (length q) cap then (q ++ x ∷ [], true) else (q, false)

is_empty_nil : (q : List ℕ) → q ≡ [] → is_empty q ≡ true
is_empty_nil q e = rw e

is_empty_cons : (q : List ℕ) (x : ℕ) (xs : List ℕ) → q ≡ x ∷ xs → is_empty q ≡ false
is_empty_cons q x xs e = rw e

add_below_pushed :
    (cap : ℕ) (q : List ℕ) (x : ℕ)
    → (add_below cap q x).1 ≡ true
    → (add_below cap q x).0 ≡ q ++ x ∷ []
add_below_pushed cap q x e = ground arith

add_below_refused :
    (cap : ℕ) (q : List ℕ) (x : ℕ) → (add_below cap q x).1 ≡ false → (add_below cap q x).0 ≡ q
add_below_refused cap q x e = ground arith

head_of_cons : (q : List ℕ) (x : ℕ) (xs : List ℕ) → q ≡ x ∷ xs → head_or_zero q ≡ x
head_of_cons q x xs e = rw e

rest_of_cons : (q : List ℕ) (x : ℕ) (xs : List ℕ) → q ≡ x ∷ xs → rest_of q ≡ xs
rest_of_cons q x xs e = rw e

abbrev bounded_queue : ℕ → Queue
bounded_queue cap = record {
  Q = List ℕ;
  contents = λ q. q;
  empty = is_empty;
  full = λ q. if ltb (length q) cap then false else true;
  push_back = add_below cap;
  front = head_or_zero;
  pop_front = rest_of;
  empty_nil = is_empty_nil;
  empty_cons = is_empty_cons;
  pushed = add_below_pushed cap;
  refused = add_below_refused cap;
  front_head = head_of_cons;
  pop_tail = rest_of_cons;
}

never_refused : (q : List ℕ) (x : ℕ) → true ≡ false → q ++ x ∷ [] ≡ q
never_refused q x e = absurd (cc)

abbrev list_queue : Queue
list_queue = record {
  Q = List ℕ;
  contents = λ q. q;
  empty = is_empty;
  full = λ q. false;
  push_back = λ q x. (q ++ x ∷ [], true);
  front = head_or_zero;
  pop_front = rest_of;
  empty_nil = is_empty_nil;
  empty_cons = is_empty_cons;
  pushed = λ q x e. refl;
  refused = never_refused;
  front_head = head_of_cons;
  pop_tail = rest_of_cons;
}

abbrev blank : List ℕ
blank = replicate 128 0

-- Nothing is cached, and nothing is allocated.
abbrev fresh : Table
fresh = record {
  geometry = record { bytes_per_sec = 512; rsvd_sec_cnt = 2; fs_table_size = 4 };
  used_sectors = 1;
  cache = [];
  disk = λ s. blank;
}

fresh-Inv : Inv fresh
unfolding find_block
fresh-Inv = record {
  sorted = λ i j lt h. absurd (omega arith);
  clean = λ id b e z. absurd (ground arith);
  small = λ id b e. absurd (ground arith);
  reserved = omega arith;
  whole_disk = λ s. refl;
  whole = λ id b e. absurd (ground arith);
}

fresh-Unsaturated : Unsaturated fresh
unfolding find_block
fresh-Unsaturated id b e = absurd (ground arith)

fresh-IsSized : IsSized fresh.geometry
fresh-IsSized = record { sector_size = refl; fits = omega arith }

fresh-IsMounted : IsMounted fresh
unfolding find_block
fresh-IsMounted = record { sized = fresh-IsSized; in_table = λ id b e. absurd (ground arith) }

fresh-IsFlushed : IsFlushed fresh
unfolding find_block
fresh-IsFlushed id b e = absurd (ground arith)

load_free_sectors-All_example : All (IsFree fresh) (load_free_sectors (bounded_queue 3) fresh [])
load_free_sectors-All_example =
    load_free_sectors-All (bounded_queue 3) fresh [] fresh-Inv fresh-IsMounted fresh-IsFlushed tt

allocate_sector-Grants_example :
    Grants
      (bounded_queue 3)
      fresh
      (7 ∷ 9 ∷ [])
      (allocate_sector (bounded_queue 3) fresh (7 ∷ 9 ∷ []))
unfolding find_block
allocate_sector-Grants_example =
    allocate_sector-Grants (bounded_queue 3) fresh (7 ∷ 9 ∷ []) fresh-Inv fresh-Unsaturated
      fresh-IsSized (omega arith)

deallocate_sector_example :
    (u : Table) × (q : List ℕ) × (deallocate_sector (bounded_queue 3) 12 fresh (7 ∷ [])
      ≡ ok (entry fresh 12, u, q))
    × Sets 12 0 fresh u
    × ((q ≡ 7 ∷ []) ⊎ (q ≡ 7 ∷ 12 ∷ []))
deallocate_sector_example =
    deallocate_sector_lem (bounded_queue 3) 12 fresh (7 ∷ []) fresh-Inv fresh-Unsaturated
      fresh-IsSized (omega arith)

-- Sector 128 has just been allocated: its block is cached and not yet written back.
abbrev unsynced : Table
unsynced = record fresh {
  cache =
      record { sector_block = eoc ∷ replicate 127 0; id = 1; read_count = 0; write_count = 1 } ∷ [];
}

unsynced-Inv : Inv unsynced
unfolding find_block
unsynced-Inv = record {
  sorted = λ i j lt h. absurd (omega arith);
  clean = λ id b e z. absurd (ground arith);
  small = λ id b e. ground arith;
  reserved = omega arith;
  whole_disk = λ s. refl;
  whole = λ id b e. ground arith;
}

unsynced-IsMounted : IsMounted unsynced
unfolding find_block
unsynced-IsMounted = record { sized = fresh-IsSized; in_table = λ id b e. ground arith }

load_free_sectors_stale_example : ¬ All (IsFree unsynced) (load_free_sectors list_queue unsynced [])
unfolding find_block
load_free_sectors_stale_example =
    load_free_sectors_stale list_queue (λ q x. refl) unsynced 1 0 [] unsynced-Inv unsynced-IsMounted
      refl refl (omega arith) (omega arith) (omega arith) refl (omega arith)
