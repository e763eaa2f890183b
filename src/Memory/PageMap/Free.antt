-- ===== src/Memory/PageMap/Free.antt =====
-- Freeing pages and marking them.
use mathlib.Core.Path.{subst}
use upanix_os.Base.{
  ℕ, ◌+◌, ◌-◌, ◌*◌, ◌/◌, ◌%◌, ◌^◌, ◌≤◌, ◌<◌, ◌≡◌, refl, sym, ap, ◌∙◌, List, some, arith, true,
  false, length, get_or, ◌==◌, leb, Bool-cases, inl, inr, ==_iff,
}
use upanix_os.Memory.Bits.{bit}
use upanix_os.Memory.PageMap.{
  MemManager, mark, deallocate_physical_page, deallocate_page_for_kernel, allocate_physical_page,
  mark_page_as_allocated, success, failure,
}
use upanix_os.Memory.PageMap.Search.{page_bit}
use upanix_os.Memory.PageMap.Alloc.{
  IsSized, Writes, Grants, with_page_map, with_kernel_map, mark-Writes, clear-Writes,
  allocate_physical_page-Grants,
}

-- Writing a bit and then the value that it had is as if nothing had been written.
Writes-undo :
    (page b c : ℕ) (first second third : List ℕ)
    → page_bit first page ≡ c
    → Writes page b first second
    → Writes page c second third
    → (other : ℕ) → page_bit third other ≡ page_bit first other
Writes-undo page b c first second third was there back other = elim (Bool-cases (page == other)) [
  | inl e ↦
      let e' = (==_iff page other).0 e in rw e at (back.1 other) ∙ sym was ∙ ap (page_bit first) e'
  | inr e ↦ rw e at (back.1 other) ∙ rw e at (there.1 other)
]

-- For a page inside the map, `DeAllocatePhysicalPage` frees that page and changes the bit of no other
-- page and no other member.
pub deallocate_physical_page_lem :
    (page : ℕ) (m : MemManager)
    → page / 32 < length m.page_map
    → Writes page 0 m.page_map (deallocate_physical_page page m).page_map
      × (deallocate_physical_page page m
          ≡ with_page_map m (deallocate_physical_page page m).page_map)
unfolding deallocate_physical_page
deallocate_physical_page_lem page m h = (clear-Writes m.page_map page h, refl)

-- For a page of the kernel's pool whose number in RAM fits 32 bits, `DeAllocatePageForKernel` frees that page of the pool and changes
-- the bit of no other page and no other member.
pub deallocate_page_for_kernel_lem :
    (page : ℕ) (m : MemManager)
    → page / 32 < length m.kernel_page_pool_map
    → page + m.kernel_page_pool_start_page < 2 ^ 32
    → Writes page 0 m.kernel_page_pool_map
        (deallocate_page_for_kernel (page + m.kernel_page_pool_start_page) m).kernel_page_pool_map
      × (deallocate_page_for_kernel (page + m.kernel_page_pool_start_page) m
          ≡ with_kernel_map m
              (deallocate_page_for_kernel
                (page + m.kernel_page_pool_start_page)
                m).kernel_page_pool_map)
unfolding deallocate_page_for_kernel
deallocate_page_for_kernel_lem page m h small =
    let e : (page + m.kernel_page_pool_start_page + 2 ^ 32 - m.kernel_page_pool_start_page) % 2 ^ 32
        ≡ page =
      omega arith in
    rw e (clear-Writes m.kernel_page_pool_map page h, refl)

-- On a map of words of 32 bits that holds the reserved ones, a page that `AllocatePhysicalPage` grants and `DeAllocatePhysicalPage` takes back leaves each page
-- as it was, free or taken.
pub deallocate_physical_page-allocate_physical_page :
    (m after : MemManager) (page : ℕ)
    → IsSized m.page_map_size m.page_map
    → m.resv_size ≤ m.page_map_size
    → allocate_physical_page m ≡ some (page, after)
    → (other : ℕ)
    → page_bit (deallocate_physical_page page after).page_map other ≡ page_bit m.page_map other
deallocate_physical_page-allocate_physical_page m after page sized le e =
    let g =
      subst (Grants (λ k. k.page_map) with_page_map 0 (m.resv_size * 32) (m.page_map_size * 32) m)
        (e) (allocate_physical_page-Grants m sized le) in
    undone g
  where
    undone :
        Grants
          (λ k. k.page_map)
          with_page_map
          0
          (m.resv_size * 32)
          (m.page_map_size * 32)
          m
          (some (page, after))
        → (other : ℕ)
        → page_bit (deallocate_physical_page page after).page_map other ≡ page_bit m.page_map other
    undone (p, is, lo, hi, free, before, writes, same) =
        let e : p ≡ page = omega arith in
        let taken = subst (λ q. Writes q 1 m.page_map after.page_map) (e) writes in
        Writes-undo page 1 0 m.page_map after.page_map
          (deallocate_physical_page page after).page_map (sym (ap (page_bit m.page_map) e) ∙ free)
          taken (deallocate_physical_page_lem page after (omega (arith, taken.0, sized.0, e))).0

-- On a map of words of 32 bits, `MarkPageAsAllocated` answers success and changes nothing for a page beyond the map; else it answers
-- failure and changes nothing for a taken page, and for a free one it answers success and takes that page alone.
pub mark_page_as_allocated_lem :
    (page : ℕ) (m : MemManager)
    → IsSized m.page_map_size m.page_map
    → (m.page_map_size ≤ page / 32 → mark_page_as_allocated page m ≡ (m, success))
      × (page / 32 < m.page_map_size
          → page_bit m.page_map page ≡ 1
          → mark_page_as_allocated page m ≡ (m, failure))
      × (page / 32 < m.page_map_size
          → page_bit m.page_map page ≡ 0
          → (mark_page_as_allocated page m
              ≡ (with_page_map m (mark_page_as_allocated page m).0.page_map, success))
            × Writes page 1 m.page_map (mark_page_as_allocated page m).0.page_map)
unfolding mark_page_as_allocated
mark_page_as_allocated_lem page m (fits, small) = (
  (λ beyond. rw (within_not beyond) refl),
  (λ inside taken. rw (within inside) (rw (tested 1 taken) refl)),
  (λ inside free. rw (within inside, tested 0 free) (refl, marked inside)),
)
  where
    within_not : m.page_map_size ≤ page / 32 → leb m.page_map_size (page / 32) ≡ true
    within_not h = ground arith

    within : page / 32 < m.page_map_size → leb m.page_map_size (page / 32) ≡ false
    within h = ground arith

    tested :
        (b : ℕ)
        → page_bit m.page_map page ≡ b
        → (bit (get_or m.page_map (page / 32) 0) (page % 32) == 0) ≡ (b == 0)
    tested b h = rw h refl

    marked :
        page / 32 < m.page_map_size
        → Writes page 1 m.page_map (mark m.page_map (page / 32) (page % 32))
    marked h =
        let e : page / 32 * 32 + page % 32 ≡ page = omega arith in
        subst (λ p. Writes p 1 m.page_map (mark m.page_map (page / 32) (page % 32))) (e)
          (mark-Writes m.page_map (page / 32) (page % 32) (omega arith) (omega arith))
