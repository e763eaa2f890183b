-- ===== src/Memory/PageMap/Tests.antt =====
-- The page maps at concrete inputs.
use upanix_os.Base.{
  ℕ, zero, suc, ◌*◌, ◌^◌, ◌<◌, ◌≤◌, ◌≡◌, refl, List, [], ◌∷◌, some, arith, length-replicate,
  replicate, set, get_or,
}
use upanix_os.Memory.Bits.{set_bit}
use upanix_os.Memory.PageMap.{
  MemManager, all_ones, find_free, free_offset, take_page, take_kernel_page, allocate_physical_page,
  deallocate_physical_page, allocate_page_for_kernel,
}
use upanix_os.Memory.PageMap.Search.{page_bit}
use upanix_os.Memory.PageMap.Alloc.{
  IsSized, Grants, with_page_map, with_kernel_map, allocate_physical_page-Grants,
}
use upanix_os.Memory.PageMap.Free.{deallocate_physical_page-allocate_physical_page}
use upanix_os.Memory.PageMap.Build.{allocations_apart}

-- Three words: the reserved one, one with pages 32, 33 and 35 taken, and one that is free.
abbrev small_map : List ℕ
small_map = all_ones ∷ 11 ∷ 0 ∷ []

abbrev manager : MemManager
manager = record {
  page_map = small_map;
  page_map_size = 3;
  resv_size = 1;
  kernel_page_pool_map = small_map;
  kernel_page_pool_map_size = 3;
  kernel_page_pool_start_page = 28672;
}

small_words : (j : ℕ) → get_or small_map j 0 < 2 ^ 32
small_words zero = omega arith
small_words (suc zero) = omega arith
small_words (suc (suc zero)) = omega arith
small_words (suc (suc (suc j))) = omega arith

small_map-IsSized : IsSized 3 small_map
small_map-IsSized = (omega arith, small_words)

first_free :
    (allocate_physical_page manager) ≡ some (34, with_page_map manager (all_ones ∷ 15 ∷ 0 ∷ []))
unfolding allocate_physical_page find_free free_offset take_page set_bit
first_free = refl

allocate_physical_page_example :
    Grants
      (λ k. k.page_map)
      with_page_map
      0
      (1 * 32)
      (3 * 32)
      manager
      (allocate_physical_page manager)
allocate_physical_page_example =
    allocate_physical_page-Grants manager small_map-IsSized (omega arith)

round_trip_example :
    page_bit
      (deallocate_physical_page 34 (with_page_map manager (all_ones ∷ 15 ∷ 0 ∷ []))).page_map
      34
    ≡ page_bit small_map 34
round_trip_example =
    deallocate_physical_page-allocate_physical_page manager
      (with_page_map manager (all_ones ∷ 15 ∷ 0 ∷ [])) 34 small_map-IsSized (omega arith) first_free
      34

-- Memory that holds zeros.
zeros_small : (n j : ℕ) → get_or (replicate n 0) j 0 < 2 ^ 32
zeros_small zero j = omega arith
zeros_small (suc n) zero = omega arith
zeros_small (suc n) (suc j) = zeros_small n j

zeros : (n size : ℕ) → size ≤ n → IsSized size (replicate n 0)
zeros n size h = (omega (arith, length-replicate {A = ℕ} n 0), zeros_small n)

-- The maps as they are built, with one word of RAM to allocate.
abbrev machine : MemManager
machine = record {
  page_map = replicate 1025 0;
  page_map_size = 1025;
  resv_size = 1024;
  kernel_page_pool_map = replicate 128 0;
  kernel_page_pool_map_size = 128;
  kernel_page_pool_start_page = 28672;
}

first_page :
    allocate_physical_page machine
    ≡ some (32768, with_page_map machine (set (replicate 1025 0) 1024 1))
unfolding allocate_physical_page find_free free_offset take_page set_bit
first_page = refl

first_kernel_page :
    allocate_page_for_kernel machine
    ≡ some (28672, with_kernel_map machine (set (replicate 128 0) 0 1))
unfolding allocate_page_for_kernel find_free free_offset take_kernel_page set_bit
first_kernel_page = refl

allocations_apart_example : 28672 < 32768
allocations_apart_example =
    allocations_apart machine (with_page_map machine (set (replicate 1025 0) 1024 1)) machine
      (with_kernel_map machine (set (replicate 128 0) 0 1)) 32768 28672
      (zeros 1025 1025 (omega arith)) (omega arith) refl (zeros 128 128 (omega arith)) refl refl
      first_page first_kernel_page
