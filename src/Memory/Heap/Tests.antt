-- ===== src/Memory/Heap/Tests.antt =====
-- The heap of the kernel at concrete inputs.
use upanix_os.Base.{ℕ, ◌+◌, ◌≤◌, ◌<◌, ◌≡◌, refl, true, false, [], ◌∷◌, arith}
use upanix_os.Memory.Heap.{
  Tracker, Heap, done, thrown, bad_align, success, put, used_tracker, with_head, is_align_number,
  mem_kernel_heap_size, calculate_check_sum, allocate_for_kernel, deallocate_for_kernel,
  get_byte_stuff_for_align,
}
use upanix_os.Memory.Heap.Cover.{cover-cons, cover-nil}
use upanix_os.Memory.Heap.Partition.{IsHeap}
use upanix_os.Memory.Heap.Allocate.{IsAnswer, needed, allocate_for_kernel-IsAnswer}
use upanix_os.Memory.Heap.Release.{
  fresh-IsHeap, Overlaps, deallocate_for_kernel_lem, full_granted_again,
}

abbrev blank : ℕ → Tracker
blank a = record { allocated_address = 0; return_address = 0; size = 0; check_sum = 0; next = 0 }

abbrev unused : Heap
unused = record { store = blank; aut_address = 0 }

-- A heap at 4096 that is one free block, and one that is one block in use.
abbrev fresh : Heap
fresh = with_head 4096 unused

fresh_head : 0 < fresh.aut_address
unfolding with_head
fresh_head = omega arith

unused-IsHeap : IsHeap 4096 fresh ((4096, mem_kernel_heap_size) ∷ []) []
unused-IsHeap = fresh-IsHeap 4096 unused (omega arith) refl

abbrev full : Heap
full = record { store = put blank 4096 (used_tracker 4096 mem_kernel_heap_size 0); aut_address = 0 }

full-IsHeap : IsHeap 4096 full [] ((4096, mem_kernel_heap_size, 0) ∷ [])
unfolding calculate_check_sum
full-IsHeap = (
  refl,
  ((omega arith, omega arith, refl, refl, refl, refl), tt),
  λ x. omega (arith, cover-nil x, cover-cons x 4096 mem_kernel_heap_size []),
)

allocate_for_kernel_example :
    (is_align_number 16 ≡ false → allocate_for_kernel 4096 100 16 fresh ≡ thrown bad_align)
    × (is_align_number 16 ≡ true
        → IsAnswer 4096 100 16
            ((4096, mem_kernel_heap_size) ∷ [])
            []
            (allocate_for_kernel 4096 100 16 fresh))
allocate_for_kernel_example =
    allocate_for_kernel-IsAnswer 4096 100 16 fresh ((4096, mem_kernel_heap_size) ∷ []) []
      unused-IsHeap fresh_head (omega arith)

deallocate_for_kernel_example :
    (after : Heap) × (deallocate_for_kernel 4096 (4096 + 20 + 0) full ≡ done (success, after))
    × IsHeap 4096 after ((4096, mem_kernel_heap_size) ∷ []) []
deallocate_for_kernel_example =
    deallocate_for_kernel_lem 4096 4096 mem_kernel_heap_size 0 full [] [] [] full-IsHeap

needed_fits : needed 100 0 4096 ≤ mem_kernel_heap_size
unfolding get_byte_stuff_for_align
needed_fits = omega arith

full_granted_again_example :
    Overlaps 100 ((4096, mem_kernel_heap_size, 0) ∷ []) (allocate_for_kernel 4096 100 0 full)
full_granted_again_example =
    full_granted_again 4096 100 0 full ((4096, mem_kernel_heap_size, 0) ∷ []) (omega arith)
      full-IsHeap refl (omega arith) needed_fits
