-- ===== src/Memory/Heap/Release.antt =====
-- `DMM_DeAllocateForKernel`, and what `DMM_AllocateForKernel` does when no free block is left.
use upanix_os.Base.{
  ℕ, ◌+◌, ◌-◌, ◌/◌, ◌^◌, ◌≤◌, ◌<◌, ◌≡◌, refl, ap, true, false, List, [], ◌∷◌, ◌++◌, leb, ◌==◌,
  arith, Bool-cases, inl, inr, ==_iff,
}
use upanix_os.Memory.Heap.{
  Tracker, Heap, HeapResult, done, thrown, success, calculate_check_sum, put, free_tracker,
  is_align_number, allocate_loop, allocate_for_kernel, deallocate_for_kernel, mem_kernel_heap_size,
  with_head,
}
use upanix_os.Memory.Heap.Cover.{within, cover, cover-cons, cover-nil, within-start, within-inside}
use upanix_os.Memory.Heap.Chain.{Chain-frame, put-other, put-same}
use upanix_os.Memory.Heap.Allocate.{IsAnswer, needed, allocate_loop-IsAnswer}
use upanix_os.Memory.Heap.Partition.{Used, spans, IsUsed, AllUsed, AllUsed-frame, IsHeap}

-- A block in use, out of the others.
AllUsed-split :
    (s : ℕ → Tracker) (front back : List Used) (used : Used)
    → AllUsed s (front ++ used ∷ back)
    → IsUsed s used × AllUsed s (front ++ back)
AllUsed-split s [] back used h = h
AllUsed-split s (other ∷ front) back used (here, rest) =
    let (found, others) = AllUsed-split s front back used rest in (found, (here, others))

cover-spans :
    (x base size stuff : ℕ) (front back : List Used)
    → cover x (spans (front ++ (base, size, stuff) ∷ back))
      ≡ within x base size + cover x (spans (front ++ back))
cover-spans x base size stuff [] back = cover-cons x base size (spans back)
cover-spans x base size stuff ((other, more, skip) ∷ front) back = omega (
  arith,
  cover-cons x other more (spans (front ++ (base, size, stuff) ∷ back)),
  cover-cons x other more (spans (front ++ back)),
  cover-spans x base size stuff front back,
)

at_most_once : (x start size : ℕ) → within x start size ≤ 1
at_most_once x start size = ground arith

-- The heap after a block in use is given back.
abbrev pub released : ℕ → ℕ → Heap → Heap
released base size h = record h {
  store = put h.store base (free_tracker base size h.aut_address);
  aut_address = base;
}

released-IsHeap :
    (start base size stuff : ℕ) (h : Heap) (free : List (ℕ × ℕ)) (front back : List Used)
    → IsHeap start h free (front ++ (base, size, stuff) ∷ back)
    → IsHeap start (released base size h) ((base, size) ∷ free) (front ++ back)
unfolding calculate_check_sum
released-IsHeap start base size stuff h free front back (chain, used, partition) =
    let (here, others) = AllUsed-split h.store front back (base, size, stuff) used in
    let t = free_tracker base size h.aut_address in
    let at_base = put-same h.store base t in
    let covered = within-start base size (omega (arith, here.1)) in
    (
      (
        refl,
        here.0,
        omega (arith, here.1),
        rw at_base (refl, refl, refl),
        rw at_base (
            Chain-frame h.store (put h.store base t) h.aut_address 0 free
              (λ x c. put-other h.store base x t (λ e. absurd (
                omega (
                  arith,
                  partition x,
                  cover-spans x base size stuff front back,
                  at_most_once x start mem_kernel_heap_size,
                  ap (λ y. within y base size) e,
                  covered,
                ))))
              chain),
      ),
      AllUsed-frame h.store (put h.store base t) (front ++ back)
          (λ x c. put-other h.store base x t (λ e. absurd (
            omega (
              arith,
              partition x,
              cover-spans x base size stuff front back,
              at_most_once x start mem_kernel_heap_size,
              ap (λ y. within y base size) e,
              covered,
            ))))
          others,
      λ x. omega (
        arith,
        partition x,
        cover-spans x base size stuff front back,
        cover-cons x base size free,
      ),
    )

-- On a well-formed heap, giving back the address of a block in use succeeds: the block becomes the
-- first free one, the others stay in use, and each address of the heap is still in exactly one
-- block.
pub deallocate_for_kernel_lem :
    (start base size stuff : ℕ) (h : Heap) (free : List (ℕ × ℕ)) (front back : List Used)
    → IsHeap start h free (front ++ (base, size, stuff) ∷ back)
    → (after : Heap) × (deallocate_for_kernel start (base + 20 + stuff) h ≡ done (success, after))
      × IsHeap start after ((base, size) ∷ free) (front ++ back)
unfolding deallocate_for_kernel
deallocate_for_kernel_lem start base size stuff h free front back (chain, used, partition) =
    let (positive, room, returned, sized, next, sum) =
      (AllUsed-split h.store front back (base, size, stuff) used).0 in
    let tracker : base + 20 + stuff - 20 ≡ base + stuff = omega arith in
    let back_to : base + stuff - stuff ≡ base = omega arith in
    let not_null : (base + 20 + stuff == 0) ≡ false = ground arith in
    let after_start : leb (base + 20 + stuff) start ≡ false =
      ground (arith, inside (omega arith)) in
    let intact =
      (==_iff (calculate_check_sum (h.store (base + stuff))) (h.store (base + stuff)).check_sum).1
        sum in
    let in_use : ((h.store (base + stuff)).return_address == 0) ≡ false =
      ground (arith, returned) in
    (
      released base size h,
      rw (not_null, after_start, tracker, intact, in_use, next, sized, back_to) refl,
      released-IsHeap start base size stuff h free front back (chain, used, partition),
    )
  where
    inside : 0 < size → start ≤ base
    inside h = elim (Bool-cases (leb start base)) [
      | inl e ↦ ground arith
      | inr e ↦
          let outside : within base start mem_kernel_heap_size ≡ 0 = ground arith in
          absurd (
            omega (
              arith,
              partition base,
              cover-spans base base size stuff front back,
              within-start base size h,
            ))
    ]

-- The heap as one free block.
pub fresh-IsHeap :
    (start : ℕ) (h : Heap)
    → 0 < start
    → h.aut_address ≡ 0
    → IsHeap start (with_head start h) ((start, mem_kernel_heap_size) ∷ []) []
unfolding with_head calculate_check_sum
fresh-IsHeap start h positive none_free =
    let null = (==_iff h.aut_address 0).1 none_free in
    let t = free_tracker start mem_kernel_heap_size 0 in
    let at_start = put-same h.store start t in
    rw null (
      (refl, positive, omega arith, rw at_start (refl, refl, refl), rw at_start refl),
      tt,
      λ x. omega (arith, cover-cons x start mem_kernel_heap_size [], cover-nil x),
    )

-- An answer, and that each of its bytes is in a block in use.
abbrev pub Overlaps : ℕ → List Used → HeapResult (ℕ × Heap) → Type 0
Overlaps size live (thrown e) = ⊥
Overlaps size live (done (answer, after)) =
    (a : ℕ) → answer ≤ a → a < answer + size → cover a (spans live) ≡ 1

answer-Overlaps :
    (start size align : ℕ) (live : List Used) (r : HeapResult (ℕ × Heap))
    → needed size align start ≤ mem_kernel_heap_size
    → ((a : ℕ) → cover a (spans live) ≡ within a start mem_kernel_heap_size)
    → IsAnswer start size align ((start, mem_kernel_heap_size) ∷ []) [] r
    → Overlaps size live r
answer-Overlaps start size align live (thrown e) fits full (is, (tight, _)) = absurd (omega arith)
answer-Overlaps start size align live (done (answer, after)) fits full
      (base, (taken, (stuff, e, aligned, room, (rest, (chain, used, partition))))) =
    λ a lo hi. omega (
      arith,
      full a,
      partition a,
      cover-cons a base taken [],
      within-inside a base taken (omega arith) (omega arith),
      at_most_once a start mem_kernel_heap_size,
    )

-- When the blocks in use fill a well-formed heap that does not start at address 0, the next
-- request is answered from a heap that is started anew: each byte that it is granted is in a block
-- in use, if the request would fit an empty heap, its size and alignment with a tracker fit 32
-- bits, and its alignment is a power of two.
pub full_granted_again :
    (start size align : ℕ) (h : Heap) (live : List Used)
    → 0 < start
    → IsHeap start h [] live
    → is_align_number align ≡ true
    → size + 20 + align < 2 ^ 32
    → needed size align start ≤ mem_kernel_heap_size
    → Overlaps size live (allocate_for_kernel start size align h)
unfolding allocate_for_kernel
full_granted_again start size align h live positive (chain, used, partition) good small fits =
    let (chain', used', partition') = fresh-IsHeap start h positive chain in
    rw good (
      answer-Overlaps start size align live
        (allocate_loop (mem_kernel_heap_size / 20 + 2) size align 0 (with_head start h).aut_address
          (with_head start h))
        fits (λ a. omega (arith, partition a, cover-nil a))
        (allocate_loop-IsAnswer start size align [] (with_head start h) small used'
          (mem_kernel_heap_size / 20 + 2) (with_head start h).aut_address []
          ((start, mem_kernel_heap_size) ∷ []) refl chain' partition' tt (omega arith)))
