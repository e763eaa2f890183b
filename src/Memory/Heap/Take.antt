-- ===== src/Memory/Heap/Take.antt =====
-- Taking a block out of the chain of free blocks.
use upanix_os.Base.{
  ℕ, ◌+◌, ◌-◌, ◌≤◌, ◌<◌, ◌≡◌, refl, ap, ◌∙◌, List, ◌∷◌, ◌++◌, ltb, arith, if_cases, ltb→lt,
}
use upanix_os.Memory.Heap.{
  Tracker, Heap, calculate_check_sum, put, relink, mem_kernel_heap_size, take_from, free_tracker,
  used_tracker,
}
use upanix_os.Memory.Heap.Cover.{
  within, cover, cover-cons, cover-append, within-inside, within-split,
}
use upanix_os.Memory.Heap.Chain.{Chain, Chain-frame, last_of, put-other, put-same}
use upanix_os.Memory.Heap.Partition.{
  Used, spans, IsUsed, AllUsed, AllUsed-frame, IsPartition, IsHeap, relink-Chain,
}

-- A block of `need` bytes or more at `base` is in use, and the heap is as it should be.
abbrev pub Taken : ℕ → ℕ → ℕ → ℕ → List Used → ℕ × Heap → Type 0
Taken start base need stuff live (answer, after) =
    (answer ≡ base + 20 + stuff)
    × ((taken : ℕ) × (need ≤ taken)
        × ((free : List (ℕ × ℕ)) × IsHeap start after free ((base, taken, stuff) ∷ live)))

module _ (start base size need stuff aut next : ℕ) (before after : List (ℕ × ℕ)) (live : List Used)
    (h : Heap) (positive : 0 < base) (fits : need ≤ size) (room : 20 + stuff ≤ need)
    (first : Chain h.store h.aut_address before aut) (second : Chain h.store next after 0)
    (used : AllUsed h.store live)
    (partition : IsPartition start (before ++ (base, size) ∷ after) live) where
  -- Each address is in one block at most.
  once : (x : ℕ) → cover x before + (within x base size + cover x after) + cover x (spans live) ≤ 1
  once x = omega (
    arith,
    partition x,
    cover-append x before ((base, size) ∷ after),
    cover-cons x base size after,
    at_most x start mem_kernel_heap_size,
  )
    where
      at_most : (x start size : ℕ) → within x start size ≤ 1
      at_most x start size = ground arith

  -- What is written inside the block leaves the trackers outside as they are.
  outside :
      (s : ℕ → Tracker) (at x : ℕ) (t : Tracker)
      → base ≤ at
      → at < base + size
      → within x base size ≡ 0
      → put s at t x ≡ s x
  outside s at x t lo hi none_ = put-other s at x t (λ e.
      absurd
        (omega (arith, within-inside at base size lo hi, ap (λ y. within y base size) e, none_)))

  tracker_stands :
      (whole : ℕ)
      → whole ≤ size
      → need ≤ whole
      → IsUsed (put h.store (base + stuff) (used_tracker base whole stuff)) (base, whole, stuff)
  unfolding calculate_check_sum
  tracker_stands whole le ge =
      rw (put-same h.store (base + stuff) (used_tracker base whole stuff))
        (positive, omega arith, refl, refl, refl, refl)

  -- The whole block, where too little would be left of it.
  take_whole :
      need + (size - need) ≡ size
      → IsHeap start
          (relink (last_of 0 before) next (record h {
            store = put h.store (base + stuff) (used_tracker base (need + (size - need)) stuff);
          }))
          (before ++ after)
          ((base, need + (size - need), stuff) ∷ live)
  take_whole whole =
      let parted = put h.store (base + stuff) (used_tracker base (need + (size - need)) stuff) in
      let same = λ (x : ℕ) (none_ : within x base size ≡ 0).
        outside h.store (base + stuff) x (used_tracker base (need + (size - need)) stuff)
          (omega arith) (omega arith) none_ in
      let r =
        relink-Chain (record h { store = parted }) aut next before after
          ((base, need + (size - need), stuff) ∷ live)
          (Chain-frame h.store parted h.aut_address aut before
            (λ x c. same x (omega (arith, once x))) first)
          (Chain-frame h.store parted next 0 after (λ x c. same x (omega (arith, once x))) second)
          (
            tracker_stands (need + (size - need)) (omega arith) (omega arith),
            AllUsed-frame h.store parted live (λ x c. same x (omega (arith, once x))) used,
          )
          (λ x. omega (
            arith,
            once x,
            cover-cons x base (need + (size - need)) (spans live),
            ap (within x base) whole,
          )) in
      (
        r.0,
        r.1,
        λ x. omega (
          arith,
          partition x,
          cover-append x before ((base, size) ∷ after),
          cover-append x before after,
          cover-cons x base size after,
          cover-cons x base (need + (size - need)) (spans live),
          ap (within x base) whole,
        ),
      )

  -- The front of the block, where the rest becomes a free block.
  take_front_part :
      21 < size - need
      → IsHeap start
          (relink (last_of 0 before) (base + need) (record h {
            store =
                put
                  (put h.store (base + stuff) (used_tracker base need stuff))
                  (base + need)
                  (free_tracker (base + need) (size - need) next);
          }))
          (before ++ (base + need, size - need) ∷ after)
          ((base, need, stuff) ∷ live)
  unfolding calculate_check_sum
  take_front_part enough =
      let front = put h.store (base + stuff) (used_tracker base need stuff) in
      let rest = free_tracker (base + need) (size - need) next in
      let parted = put front (base + need) rest in
      let same = λ (x : ℕ) (none_ : within x base size ≡ 0).
        outside front (base + need) x rest (omega arith) (omega arith) none_
        ∙ outside h.store (base + stuff) x (used_tracker base need stuff) (omega arith)
            (omega arith) none_ in
      let at_rest : parted (base + need) ≡ rest = put-same front (base + need) rest in
      let at_used : parted (base + stuff) ≡ front (base + stuff) =
        put-other front (base + need) (base + stuff) rest (λ e. absurd (omega arith)) in
      let halves = λ (x : ℕ).
        ap (within x base) (whole_size enough) ∙ within-split x base need (size - need) in
      let r =
        relink-Chain (record h { store = parted }) aut (base + need) before
          ((base + need, size - need) ∷ after) ((base, need, stuff) ∷ live)
          (Chain-frame h.store parted h.aut_address aut before
            (λ x c. same x (omega (arith, once x))) first)
          (
            refl,
            omega arith,
            omega arith,
            rw at_rest (refl, refl, refl),
            rw at_rest (
                Chain-frame h.store parted next 0 after (λ x c. same x (omega (arith, once x)))
                  second),
          )
          (
            rw at_used (tracker_stands need (omega arith) (omega arith)),
            AllUsed-frame h.store parted live (λ x c. same x (omega (arith, once x))) used,
          )
          (λ x. omega (
            arith,
            once x,
            halves x,
            cover-cons x base need (spans live),
            cover-cons x (base + need) (size - need) after,
          )) in
      (
        r.0,
        r.1,
        λ x. omega (
          arith,
          partition x,
          halves x,
          cover-append x before ((base, size) ∷ after),
          cover-append x before ((base + need, size - need) ∷ after),
          cover-cons x base size after,
          cover-cons x (base + need) (size - need) after,
          cover-cons x base need (spans live),
        ),
      )
    where
      whole_size : 21 < size - need → size ≡ need + (size - need)
      whole_size enough = omega arith

  pub take_from-Taken :
      Taken start base need stuff live (take_from need stuff (last_of 0 before) base size next h)
  unfolding take_from
  take_from-Taken = (
    refl,
    if_cases
        (λ k.
          (taken : ℕ) × (need ≤ taken)
          × ((free : List (ℕ × ℕ)) × IsHeap start k free ((base, taken, stuff) ∷ live)))
        (ltb 21 (size - need)) _ _
        (λ e. (
          need,
          omega arith,
          (
            before ++ (base + need, size - need) ∷ after,
            take_front_part (ltb→lt 21 (size - need) e),
          ),
        ))
        (λ _. (need + (size - need), omega arith, (before ++ after, take_whole (omega arith)))),
  )
