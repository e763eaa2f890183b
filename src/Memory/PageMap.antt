-- ===== src/Memory/PageMap.antt =====
-- The maps of physical pages in memory/MemManager.cpp: one bit for each page of 4 KB, in words of 32,
-- for all of the RAM and for the kernel's page pool. The locks that the operations take are left out:
-- each runs with process switching off.
mod Search
pub mod Alloc
pub mod Free
pub mod Build
mod Tests
use upanix_os.Base.{
  ℕ, zero, suc, ◌+◌, ◌-◌, ◌*◌, ◌/◌, ◌%◌, ◌^◌, Bool, true, false, List, [], ◌∷◌, Option, none, some,
  ltb, leb, ◌==◌, if◌then◌else◌, get_or, set, replicate,
}
use upanix_os.Memory.Bits.{bit, set_bit, clear_bit}

abbrev pub page_size : ℕ
page_size = 4096

abbrev pub mem_kernel_heap_start : ℕ
mem_kernel_heap_start = 0x4000000

abbrev pub mem_kernel_heap_size : ℕ
mem_kernel_heap_size = 0x3000000

abbrev pub mem_kernel_page_pool_size : ℕ
mem_kernel_page_pool_size = 0x1000000

abbrev pub mem_kernel_resv_size : ℕ
mem_kernel_resv_size = 0x8000000

-- MEM_PAGE_MAP_END - MEM_PAGE_MAP_START
abbrev pub mem_page_map_bytes : ℕ
mem_page_map_bytes = 0x1420000 - 0x1400000

-- MEM_KERNEL_PAGE_POOL_MAP_END - MEM_KERNEL_PAGE_POOL_MAP_START
abbrev pub mem_kernel_page_pool_map_bytes : ℕ
mem_kernel_page_pool_map_bytes = 0x1533000 - 0x1531000

abbrev pub all_ones : ℕ
all_ones = 0xFFFFFFFF

-- The members of `MemManager` that the page maps consist of.
pub record MemManager : Type 0 where
  pub page_map : List ℕ
  pub page_map_size : ℕ
  pub resv_size : ℕ
  pub kernel_page_pool_map : List ℕ
  pub kernel_page_pool_map_size : ℕ
  pub kernel_page_pool_start_page : ℕ

-- for (i = 0; i < n; i++) map[i] = w
fill : ℕ → ℕ → ℕ → List ℕ → List ℕ
fill zero i w map = map
fill (suc n) i w map = fill n (i + 1) w (set map i w)

-- `BuildRawPageMap`, over what stands in the map's memory: false if the map does not fit there.
pub build_raw_page_map : ℕ → List ℕ → MemManager → MemManager × Bool
build_raw_page_map ram_size memory m =
    let size = ram_size / page_size / 8 / 4 in
    let resv = mem_kernel_resv_size / page_size / 8 / 4 in
    let sized = record m { page_map = memory; page_map_size = size; resv_size = resv } in
    if ltb mem_page_map_bytes (size * 4)
    then (sized, false)
    else (record sized { page_map = fill resv 0 all_ones (fill size 0 0 memory) }, true)

-- `BuildPagePoolMap`
pub build_page_pool_map : List ℕ → MemManager → MemManager × Bool
build_page_pool_map memory m =
    let size = mem_kernel_page_pool_size / page_size / 8 / 4 in
    let start = (mem_kernel_heap_start + mem_kernel_heap_size) / page_size in
    let sized = record m {
      kernel_page_pool_map = memory;
      kernel_page_pool_map_size = size;
      kernel_page_pool_start_page = start;
    } in
    if ltb mem_kernel_page_pool_map_bytes (size * 4)
    then (sized, false)
    else (record sized { kernel_page_pool_map = fill size 0 0 memory }, true)

-- The inner loop of both allocations: the first clear bit of the 32, by shifting the word down.
pub free_offset : ℕ → ℕ → ℕ → Option ℕ
free_offset zero offset entry = none
free_offset (suc left) offset entry =
    let rest = free_offset left (offset + 1) (entry / 2) in
    if entry % 2 == 0 then some offset else rest

-- The outer loop, over `left` words from `i` on: the first word with a clear bit, and the bit.
pub find_free : ℕ → ℕ → List ℕ → Option (ℕ × ℕ)
unfolding free_offset
find_free zero i map = none
find_free (suc left) i map =
    let rest = find_free left (i + 1) map in
    let found : Option (ℕ × ℕ) = elim (free_offset 32 0 (get_or map i 0)) [
      | some o ↦ some (i, o)
      | none ↦ rest
    ] in
    if get_or map i 0 % 2 ^ 32 == all_ones then rest else found

abbrev pub mark : List ℕ → ℕ → ℕ → List ℕ
mark map i o = set map i (set_bit (get_or map i 0) o)

take_page : Option (ℕ × ℕ) → MemManager → Option (ℕ × MemManager)
take_page none m = none
take_page (some (i, o)) m = some (i * 4 * 8 + o, record m { page_map = mark m.page_map i o })

-- `AllocatePhysicalPage`; `none` is the exception "Out of memory pages!".
pub allocate_physical_page : MemManager → Option (ℕ × MemManager)
unfolding find_free take_page
allocate_physical_page m =
    take_page (find_free (m.page_map_size - m.resv_size) m.resv_size m.page_map) m

-- `DeAllocatePhysicalPage`
pub deallocate_physical_page : ℕ → MemManager → MemManager
deallocate_physical_page page m =
    let o = page % (8 * 4) in
    let i = page / (8 * 4) in
    record m { page_map = set m.page_map i (clear_bit (get_or m.page_map i 0) o) }

take_kernel_page : Option (ℕ × ℕ) → MemManager → Option (ℕ × MemManager)
take_kernel_page none m = none
take_kernel_page (some (i, o)) m = some (
  i * 4 * 8 + o + m.kernel_page_pool_start_page,
  record m { kernel_page_pool_map = mark m.kernel_page_pool_map i o },
)

-- `AllocatePageForKernel`; `none` is the exception "Out of memory pages in kernel pool!".
pub allocate_page_for_kernel : MemManager → Option (ℕ × MemManager)
unfolding find_free take_kernel_page
allocate_page_for_kernel m =
    take_kernel_page (find_free m.kernel_page_pool_map_size 0 m.kernel_page_pool_map) m

-- `DeAllocatePageForKernel`. The subtraction wraps.
pub deallocate_page_for_kernel : ℕ → MemManager → MemManager
deallocate_page_for_kernel page m =
    let n = (page + 2 ^ 32 - m.kernel_page_pool_start_page) % 2 ^ 32 in
    let i = n / (8 * 4) in
    let o = n % (8 * 4) in
    record m {
      kernel_page_pool_map =
          set m.kernel_page_pool_map i (clear_bit (get_or m.kernel_page_pool_map i 0) o);
    }

pub data ReturnCode : Type 0 where
  success failure : ReturnCode

-- `MarkPageAsAllocated`, but for the message that it prints.
pub mark_page_as_allocated : ℕ → MemManager → MemManager × ReturnCode
mark_page_as_allocated page m =
    let i = page / 32 in
    let o = page % 32 in
    if leb m.page_map_size i
    then (m, success)
    else if bit (get_or m.page_map i 0) o == 0
    then (record m { page_map = mark m.page_map i o }, success)
    else (m, failure)
