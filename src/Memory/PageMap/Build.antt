-- ===== src/Memory/PageMap/Build.antt =====
-- The maps of pages as they are built.
use mathlib.Core.Path.{subst}
use upanix_os.Base.{
  ℕ, zero, suc, ◌+◌, ◌*◌, ◌/◌, ◌%◌, ◌≤◌, ◌<◌, ◌≡◌, refl, ap, ◌∙◌, List, some, arith, true, false,
  length, length-set, get_or, get_or-set, set, ltb, leb, if◌then◌else◌, Bool-cases, inl, inr,
}
use upanix_os.Memory.Bits.{bit, bit-zero, bit-suc}
use upanix_os.Memory.PageMap.{
  MemManager, fill, all_ones, allocate_physical_page, allocate_page_for_kernel, build_raw_page_map,
  build_page_pool_map, page_size, mem_kernel_resv_size, mem_page_map_bytes,
}
use upanix_os.Memory.PageMap.Search.{page_bit, ones-bit}
use upanix_os.Memory.PageMap.Alloc.{
  IsSized, Grants, with_page_map, with_kernel_map, allocate_physical_page-Grants,
  allocate_page_for_kernel-Grants,
}

-- `for (i = from; i < from + n; i++) map[i] = w`, read back.
get_or-fill :
    (n from w j : ℕ) (map : List ℕ)
    → from + n ≤ length map
    → get_or (fill n from w map) j 0
      ≡ (if leb from j then (if ltb j (from + n) then w else get_or map j 0) else get_or map j 0)
unfolding fill
get_or-fill zero from w j map h = ground arith
get_or-fill (suc n) from w j map h =
    let l = length-set map from w in
    ground (
      arith,
      get_or-fill n (from + 1) w j (set map from w) (omega arith),
      get_or-set map from j w 0 (omega arith),
    )

length-fill : (n from w : ℕ) (map : List ℕ) → length (fill n from w map) ≡ length map
unfolding fill
length-fill zero from w map = refl
length-fill (suc n) from w map = length-fill n (from + 1) w (set map from w) ∙ length-set map from w

abbrev pub words_of : ℕ → ℕ
words_of ram_size = ram_size / page_size / 8 / 4

-- A word of the map as it is at the start.
filled : ℕ → ℕ → List ℕ → List ℕ
filled size resv memory = fill resv 0 all_ones (fill size 0 0 memory)

filled-word :
    (size resv j : ℕ) (memory : List ℕ)
    → size ≤ length memory
    → resv ≤ size
    → j < size
    → get_or (filled size resv memory) j 0 ≡ (if ltb j resv then all_ones else 0)
unfolding filled
filled-word size resv j memory fits le lt = ground (
  arith,
  get_or-fill resv 0 all_ones j (fill size 0 0 memory),
  get_or-fill size 0 0 j memory,
  length-fill size 0 0 memory,
)

filled-IsSized :
    (size resv : ℕ) (memory : List ℕ)
    → IsSized size memory
    → resv ≤ size
    → IsSized size (filled size resv memory)
unfolding filled
filled-IsSized size resv memory (fits, small) le = (
  omega (arith, length-fill resv 0 all_ones (fill size 0 0 memory), length-fill size 0 0 memory),
  λ j. ground (
    arith,
    get_or-fill resv 0 all_ones j (fill size 0 0 memory),
    get_or-fill size 0 0 j memory,
    length-fill size 0 0 memory,
    small j,
  ),
)

zero-bit : (k : ℕ) → bit 0 k ≡ 0
zero-bit zero = bit-zero 0
zero-bit (suc k) = bit-suc 0 k ∙ zero-bit k

filled-bit :
    (size resv page : ℕ) (memory : List ℕ)
    → size ≤ length memory
    → resv ≤ size
    → page < size * 32
    → page_bit (filled size resv memory) page ≡ (if ltb page (resv * 32) then 1 else 0)
filled-bit size resv page memory fits le lt =
    ap (λ w. bit w (page % 32)) (filled-word size resv (page / 32) memory fits le (omega arith))
    ∙ elim (Bool-cases (ltb (page / 32) resv)) [
      | inl e ↦
          let low : ltb page (resv * 32) ≡ true = ground arith in
          rw (e, low) (ones-bit 32 all_ones (page % 32) refl (omega arith))
      | inr e ↦
          let high : ltb page (resv * 32) ≡ false = ground arith in
          rw (e, high) (zero-bit (page % 32))
    ]

-- For RAM from 128 MB up to what the map's memory holds, `BuildRawPageMap` answers true and leaves a
-- map of words of 32 bits in which a page is taken exactly when it lies in the kernel's first 128 MB.
pub build_raw_page_map_lem :
    (ram_size : ℕ) (memory : List ℕ) (m : MemManager)
    → mem_kernel_resv_size ≤ ram_size
    → words_of ram_size * 4 ≤ mem_page_map_bytes
    → IsSized (words_of ram_size) memory
    → ((build_raw_page_map ram_size memory m).1 ≡ true)
      × IsSized
          (build_raw_page_map ram_size memory m).0.page_map_size
          (build_raw_page_map ram_size memory m).0.page_map
      × ((build_raw_page_map ram_size memory m).0.resv_size
          ≤ (build_raw_page_map ram_size memory m).0.page_map_size)
      × ((page : ℕ)
          → page < words_of ram_size * 32
          → page_bit (build_raw_page_map ram_size memory m).0.page_map page
            ≡ (if ltb page (mem_kernel_resv_size / page_size) then 1 else 0))
unfolding build_raw_page_map filled
build_raw_page_map_lem ram_size memory m large holds sized =
    let fits : ltb mem_page_map_bytes (words_of ram_size * 4) ≡ false = ground arith in
    rw fits (
      refl,
      filled-IsSized (words_of ram_size) 1024 memory sized (omega arith),
      omega arith,
      λ page lt. filled-bit (words_of ram_size) 1024 page memory sized.0 (omega arith) lt,
    )

-- `BuildPagePoolMap` answers true and leaves a pool of words of 32 bits in which each page is free,
-- and which ends where the RAM that `AllocatePhysicalPage` grants begins.
pub build_page_pool_map_lem :
    (memory : List ℕ) (m : MemManager)
    → IsSized 128 memory
    → ((build_page_pool_map memory m).1 ≡ true)
      × ((build_page_pool_map memory m).0.kernel_page_pool_map_size ≡ 128)
      × IsSized 128 (build_page_pool_map memory m).0.kernel_page_pool_map
      × ((page : ℕ)
          → page < 128 * 32
          → page_bit (build_page_pool_map memory m).0.kernel_page_pool_map page ≡ 0)
      × ((build_page_pool_map memory m).0.kernel_page_pool_start_page + 128 * 32
          ≡ mem_kernel_resv_size / page_size)
unfolding build_page_pool_map
build_page_pool_map_lem memory m (fits, small) = (
  refl,
  refl,
  (
    omega (arith, length-fill 128 0 0 memory),
    λ j. ground (arith, get_or-fill 128 0 0 j memory, small j),
  ),
  λ page lt.
      ap (λ w. bit w (page % 32)) (zero_word (page / 32) (omega arith)) ∙ zero-bit (page % 32),
  refl,
)
  where
    zero_word : (j : ℕ) → j < 128 → get_or (fill 128 0 0 memory) j 0 ≡ 0
    zero_word j lt = ground (arith, get_or-fill 128 0 0 j memory)

-- With the reserved words and the pool as they are built, and maps of words of 32 bits, a page that `AllocatePageForKernel` grants
-- and a page that `AllocatePhysicalPage` grants are never the same page of RAM.
pub allocations_apart :
    (m after k : MemManager) (kernel_after : MemManager) (page kernel_page : ℕ)
    → IsSized m.page_map_size m.page_map
    → m.resv_size ≤ m.page_map_size
    → m.resv_size ≡ 1024
    → IsSized 128 k.kernel_page_pool_map
    → k.kernel_page_pool_map_size ≡ 128
    → k.kernel_page_pool_start_page ≡ 28672
    → allocate_physical_page m ≡ some (page, after)
    → allocate_page_for_kernel k ≡ some (kernel_page, kernel_after)
    → kernel_page < page
allocations_apart m after k kernel_after page kernel_page sized le resv ksized size start e f =
    apart
      (subst (Grants (λ k. k.page_map) with_page_map 0 (m.resv_size * 32) (m.page_map_size * 32) m)
        (e) (allocate_physical_page-Grants m sized le))
      (subst
        (Grants (λ k. k.kernel_page_pool_map) with_kernel_map k.kernel_page_pool_start_page 0
          (k.kernel_page_pool_map_size * 32) k)
        (f) (allocate_page_for_kernel-Grants k (omega (arith, ksized.0), ksized.1)))
  where
    apart :
        Grants
          (λ k. k.page_map)
          with_page_map
          0
          (m.resv_size * 32)
          (m.page_map_size * 32)
          m
          (some (page, after))
        → Grants
            (λ k. k.kernel_page_pool_map)
            with_kernel_map
            k.kernel_page_pool_start_page
            0
            (k.kernel_page_pool_map_size * 32)
            k
            (some (kernel_page, kernel_after))
        → kernel_page < page
    apart (p, is, lo, hi, _, _, _, _) (q, is', lo', hi', _, _, _, _) = omega arith
