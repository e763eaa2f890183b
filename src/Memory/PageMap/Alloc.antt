-- ===== src/Memory/PageMap/Alloc.antt =====
-- Allocating and freeing pages, by the bits of the maps.
use mathlib.Core.Path.{subst}
use upanix_os.Base.{
  ℕ, ◌+◌, ◌-◌, ◌*◌, ◌/◌, ◌%◌, ◌^◌, ◌≤◌, ◌<◌, ◌≡◌, refl, ap, ◌∙◌, List, Option, none, some, arith,
  true, false, length, length-set, get_or, get_or-set, set, ◌==◌, if◌then◌else◌, Bool-cases, inl,
  inr, ==_iff,
}
use upanix_os.Memory.Bits.{bit, set_bit, clear_bit, bit-set_bit, bit-clear_bit}
use upanix_os.Memory.PageMap.{
  MemManager, find_free, mark, take_page, take_kernel_page, allocate_physical_page,
  allocate_page_for_kernel,
}
use upanix_os.Memory.PageMap.Search.{page_bit, find_free-FirstPage, FirstPage}

-- A map of words of 32 bits that stands in memory whole.
abbrev pub IsSized : ℕ → List ℕ → Type 0
IsSized size map = (size ≤ length map) × ((j : ℕ) → get_or map j 0 < 2 ^ 32)

-- The map `after` is `before` with the bit of page `page` made `b`, as long and otherwise the same.
abbrev pub Writes : ℕ → ℕ → List ℕ → List ℕ → Type 0
Writes page b before after =
    (length after ≡ length before)
    × ((other : ℕ) → page_bit after other ≡ (if page == other then b else page_bit before other))

page_bit-set :
    (map : List ℕ) (i v page : ℕ)
    → i < length map
    → page_bit (set map i v) page
      ≡ (if i == page / 32 then bit v (page % 32) else page_bit map page)
page_bit-set map i v page h =
    rw (get_or-set map i (page / 32) v 0 h)
      (elim (Bool-cases (i == page / 32)) [ inl e ↦ rw e refl | inr e ↦ rw e refl ])

-- A word whose bit `o` is written writes the bit of one page.
word-Writes :
    (map : List ℕ) (i o b v : ℕ)
    → i < length map
    → o < 32
    → ((k : ℕ) → bit v k ≡ (if o == k then b else bit (get_or map i 0) k))
    → Writes (i * 32 + o) b map (set map i v)
word-Writes map i o b v h small bits = (
  length-set map i v,
  λ other. page_bit-set map i v other h ∙ elim (Bool-cases (i == other / 32)) [
    | inl e ↦
        let e' = (==_iff i (other / 32)).0 e in
        rw e (
          bits (other % 32) ∙ elim (Bool-cases (o == other % 32)) [
            | inl s ↦
                let same : ((i * 32 + o) == other) ≡ true =
                  (==_iff (i * 32 + o) other).1 (omega (arith, (==_iff o (other % 32)).0 s)) in
                rw (s, same) refl
            | inr s ↦
                let apart : ((i * 32 + o) == other) ≡ false = ground arith in
                rw (s, apart) (ap (λ w. bit (get_or map w 0) (other % 32)) e')
          ])
    | inr e ↦ let apart : ((i * 32 + o) == other) ≡ false = ground arith in rw (e, apart) refl
  ],
)

pub mark-Writes :
    (map : List ℕ) (i o : ℕ) → i < length map → o < 32 → Writes (i * 32 + o) 1 map (mark map i o)
mark-Writes map i o h small =
    word-Writes map i o 1 (set_bit (get_or map i 0) o) h small (bit-set_bit (get_or map i 0) o)

pub clear-Writes :
    (map : List ℕ) (page : ℕ)
    → page / 32 < length map
    → Writes page 0 map (set map (page / 32) (clear_bit (get_or map (page / 32) 0) (page % 32)))
clear-Writes map page h =
    let e : page / 32 * 32 + page % 32 ≡ page = omega arith in
    subst
      (λ p. Writes p 0 map (set map (page / 32) (clear_bit (get_or map (page / 32) 0) (page % 32))))
      (e)
      (word-Writes map (page / 32) (page % 32) 0 (clear_bit (get_or map (page / 32) 0) (page % 32))
        h (omega arith) (bit-clear_bit (get_or map (page / 32) 0) (page % 32)))

-- What an allocation from pages `low` to `high` of a map promises, counted from `start`.
abbrev pub Grants :
    (MemManager → List ℕ)
    → (MemManager → List ℕ → MemManager)
    → ℕ
    → ℕ
    → ℕ
    → MemManager
    → Option (ℕ × MemManager)
    → Type 0
Grants map_of with_map start low high m none =
    (page : ℕ) → low ≤ page → page < high → page_bit (map_of m) page ≡ 1
Grants map_of with_map start low high m (some (answer, after)) =
    (page : ℕ) × (answer ≡ page + start)
    × (low ≤ page)
    × (page < high)
    × (page_bit (map_of m) page ≡ 0)
    × ((other : ℕ) → low ≤ other → other < page → page_bit (map_of m) other ≡ 1)
    × Writes page 1 (map_of m) (map_of after)
    × (after ≡ with_map m (map_of after))

abbrev pub with_page_map : MemManager → List ℕ → MemManager
with_page_map m map = record m { page_map = map }

abbrev pub with_kernel_map : MemManager → List ℕ → MemManager
with_kernel_map m map = record m { kernel_page_pool_map = map }

-- On a map of words of 32 bits that holds the reserved ones, `AllocatePhysicalPage` fails exactly when each page between the
-- reserved ones and the end of the map is taken; else it answers the first free page of them, marks
-- that page as taken, and changes the bit of no other page and no other member.
pub allocate_physical_page-Grants :
    (m : MemManager)
    → IsSized m.page_map_size m.page_map
    → m.resv_size ≤ m.page_map_size
    → Grants
        (λ k. k.page_map)
        with_page_map
        0
        (m.resv_size * 32)
        (m.page_map_size * 32)
        m
        (allocate_physical_page m)
unfolding allocate_physical_page take_page
allocate_physical_page-Grants m (fits, small) le =
    granted (find_free (m.page_map_size - m.resv_size) m.resv_size m.page_map)
      (find_free-FirstPage (m.page_map_size - m.resv_size) m.resv_size m.page_map small)
  where
    granted :
        (r : Option (ℕ × ℕ))
        → FirstPage (m.page_map_size - m.resv_size) m.resv_size m.page_map r
        → Grants
            (λ k. k.page_map)
            with_page_map
            0
            (m.resv_size * 32)
            (m.page_map_size * 32)
            m
            (take_page r m)
    granted none f = λ page lo hi. f page lo (omega arith)
    granted (some (i, o)) (ge, lt, o_small, free, before) = (
      i * 32 + o,
      omega arith,
      omega arith,
      omega arith,
      free,
      before,
      mark-Writes m.page_map i o (omega arith) o_small,
      refl,
    )

-- On a map of words of 32 bits, `AllocatePageForKernel` fails exactly when each page of the kernel's
-- pool is taken; else it answers the first free page of the pool, marks it as taken, and changes the
-- bit of no other page and no other member.
pub allocate_page_for_kernel-Grants :
    (m : MemManager)
    → IsSized m.kernel_page_pool_map_size m.kernel_page_pool_map
    → Grants
        (λ k. k.kernel_page_pool_map)
        with_kernel_map
        m.kernel_page_pool_start_page
        0
        (m.kernel_page_pool_map_size * 32)
        m
        (allocate_page_for_kernel m)
unfolding allocate_page_for_kernel take_kernel_page
allocate_page_for_kernel-Grants m (fits, small) =
    granted (find_free m.kernel_page_pool_map_size 0 m.kernel_page_pool_map)
      (find_free-FirstPage m.kernel_page_pool_map_size 0 m.kernel_page_pool_map small)
  where
    granted :
        (r : Option (ℕ × ℕ))
        → FirstPage m.kernel_page_pool_map_size 0 m.kernel_page_pool_map r
        → Grants
            (λ k. k.kernel_page_pool_map)
            with_kernel_map
            m.kernel_page_pool_start_page
            0
            (m.kernel_page_pool_map_size * 32)
            m
            (take_kernel_page r m)
    granted none f = λ page lo hi. f page lo (omega arith)
    granted (some (i, o)) (ge, lt, o_small, free, before) = (
      i * 32 + o,
      omega arith,
      omega arith,
      omega arith,
      free,
      before,
      mark-Writes m.kernel_page_pool_map i o (omega arith) o_small,
      refl,
    )
