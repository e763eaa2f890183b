-- ===== src/Memory/Heap/Allocate.antt =====
-- `DMM_AllocateForKernel`: the first block that is large enough.
use mathlib.Core.Path.{subst}
use mathlib.Core.List.{append_assoc}
use native.Mathlib.Nat.{mod-add-mod, mod_self, mod-lt}
use upanix_os.Base.{
  ℕ, zero, suc, ◌+◌, ◌-◌, ◌/◌, ◌%◌, ◌^◌, ◌≤◌, ◌<◌, ◌≡◌, refl, sym, ap, ◌∙◌, ◌⊎◌, true, false, List,
  [], ◌∷◌, ◌++◌, leb, ◌==◌, arith, Bool-cases, inl, inr, ==_iff, if_cases, leb→le, length, All,
  All-append,
}
use upanix_os.Memory.Heap.{
  Heap, bad_align, HeapResult, done, thrown, out_of_memory, calculate_check_sum,
  get_byte_stuff_for_align, is_align_number, allocate_loop, allocate_for_kernel, take_from,
  with_head, mem_kernel_heap_size,
}
use upanix_os.Memory.Heap.Chain.{Chain, Chain-append, last_of}
use upanix_os.Memory.Heap.Partition.{Used, AllUsed, IsPartition, IsHeap}
use upanix_os.Memory.Heap.Take.{Taken, take_from-Taken}
use upanix_os.Memory.Heap.Count.{free_blocks-le}

abbrev pub IsAligned : ℕ → ℕ → Type 0
IsAligned align address = (align ≡ 0) ⊎ (address % align ≡ 0)

stuff-le : (address align : ℕ) → get_byte_stuff_for_align address align ≤ align
unfolding get_byte_stuff_for_align
stuff-le address align = ground arith

stuff_aligns :
    (address align : ℕ) → IsAligned align (address + get_byte_stuff_for_align address align)
unfolding get_byte_stuff_for_align
stuff_aligns address align = elim (Bool-cases (align == 0)) [
  | inl e ↦ inl ((==_iff align 0).0 e)
  | inr e ↦ elim (Bool-cases (address % align == 0)) [
    | inl f ↦
        rw (e, f) (inr (ap (λ a. a % align) (no_more address) ∙ (==_iff (address % align) 0).0 f))
    | inr f ↦
        let some_align : 0 < align = ground arith in
        let below = mod-lt address some_align in
        rw (e, f)
          (inr (
            sym (mod-add-mod address align (align - address % align))
            ∙ ap (λ a. a % align) (whole (address % align) (omega arith))
            ∙ mod_self align))
  ]
]
  where
    no_more : (a : ℕ) → a + 0 ≡ a
    no_more a = omega arith

    whole : (r : ℕ) → r ≤ align → r + (align - r) ≡ align
    whole r h = omega arith

-- The bytes that a request needs of the block at `base`.
abbrev pub needed : ℕ → ℕ → ℕ → ℕ
needed size align base = size + 20 + get_byte_stuff_for_align (base + 20) align

abbrev pub IsTooSmall : ℕ → ℕ → ℕ × ℕ → Type 0
IsTooSmall size align (base, max) = max < needed size align base

-- What a request is answered: a part of the heap that was free, large enough and aligned, or that no free block is large
-- enough.
abbrev pub IsAnswer : ℕ → ℕ → ℕ → List (ℕ × ℕ) → List Used → HeapResult (ℕ × Heap) → Type 0
IsAnswer start size align free live (thrown e) =
    (e ≡ out_of_memory) × All (IsTooSmall size align) free
IsAnswer start size align free live (done (answer, after)) =
    (base : ℕ) × ((taken : ℕ) × ((stuff : ℕ) × (answer ≡ base + 20 + stuff)
        × IsAligned align answer
        × (20 + stuff + size ≤ taken)
        × ((rest : List (ℕ × ℕ)) × IsHeap start after rest ((base, taken, stuff) ∷ live))))

last_of-append :
    (p base size : ℕ) (blocks : List (ℕ × ℕ)) → last_of p (blocks ++ (base, size) ∷ []) ≡ base
last_of-append p base size [] = refl
last_of-append p base size ((next, more) ∷ blocks) = last_of-append next base size blocks

Taken-IsAnswer :
    (start size align base need stuff : ℕ) (free : List (ℕ × ℕ)) (live : List Used) (r : ℕ × Heap)
    → need ≡ size + 20 + stuff
    → IsAligned align (base + 20 + stuff)
    → Taken start base need stuff live r
    → IsAnswer start size align free live (done r)
Taken-IsAnswer start size align base need stuff free live (answer, k) is aligned
      (e, (taken, large, (rest, heap))) =
    (base, (taken, (stuff, e, subst (IsAligned align) (sym e) aligned, omega arith, (rest, heap))))

module _ (start size align : ℕ) (live : List Used) (h : Heap) (small : size + 20 + align < 2 ^ 32)
    (used : AllUsed h.store live) where
  pub allocate_loop-IsAnswer :
      (fuel aut : ℕ) (before rest : List (ℕ × ℕ))
      → Chain h.store h.aut_address before aut
      → Chain h.store aut rest 0
      → IsPartition start (before ++ rest) live
      → All (IsTooSmall size align) before
      → length rest < fuel
      → IsAnswer start size align
          (before ++ rest)
          live
          (allocate_loop fuel size align (last_of 0 before) aut h)
  unfolding allocate_loop
  allocate_loop-IsAnswer zero aut before rest first second partition all enough =
      absurd (omega arith)
  allocate_loop-IsAnswer (suc fuel) aut before [] first second partition all enough =
      rw ((==_iff aut 0).1 second) (refl, All-append (IsTooSmall size align) before [] all tt)
  allocate_loop-IsAnswer (suc fuel) aut before ((base, max) ∷ rest) first
        (e, positive, large, (at, sized, sum), onward) partition all enough =
      subst
        (λ a.
          IsAnswer start size align (before ++ (base, max) ∷ rest) live
            (allocate_loop (suc fuel) size align (last_of 0 before) a h))
        (sym e)
        (here (λ tight.
          allocate_loop-IsAnswer fuel (h.store base).next (before ++ (base, max) ∷ []) rest
            (Chain-append h.store h.aut_address aut (h.store base).next before ((base, max) ∷ [])
              first (e, positive, large, (at, sized, sum), refl))
            onward
            (subst (λ l. IsPartition start l live)
              (sym (append_assoc before ((base, max) ∷ []) rest)) partition)
            (All-append (IsTooSmall size align) before ((base, max) ∷ []) all (tight, tt))
            (omega arith)))
    where
      stuff : ℕ
      stuff = get_byte_stuff_for_align ((h.store base).allocated_address + 20) align

      need_is : (size + 20 + stuff) % 2 ^ 32 ≡ size + 20 + stuff
      need_is = omega (arith, small, stuff-le ((h.store base).allocated_address + 20) align)

      block_is : ◌≡◌ {A = ℕ × ℕ} (base, max) ((h.store base).allocated_address, (h.store base).size)
      block_is = λ i. (sym at i, sym sized i)

      grant :
          (size + 20 + stuff) % 2 ^ 32 ≤ (h.store base).size
          → IsAnswer start size align (before ++ (base, max) ∷ rest) live (
              done (
                take_from
                  ((size + 20 + stuff) % 2 ^ 32)
                  stuff
                  (last_of 0 before)
                  (h.store base).allocated_address
                  (h.store base).size
                  (h.store base).next
                  h))
      grant fits =
          Taken-IsAnswer start size align (h.store base).allocated_address
            ((size + 20 + stuff) % 2 ^ 32) stuff (before ++ (base, max) ∷ rest) live
            (take_from ((size + 20 + stuff) % 2 ^ 32) stuff (last_of 0 before)
              (h.store base).allocated_address (h.store base).size (h.store base).next h)
            need_is (stuff_aligns ((h.store base).allocated_address + 20) align)
            (take_from-Taken start (h.store base).allocated_address (h.store base).size
              ((size + 20 + stuff) % 2 ^ 32) stuff aut (h.store base).next before rest live h
              (omega (arith, positive, at)) fits (omega (arith, need_is)) first onward used
              (subst (λ b. IsPartition start (before ++ b ∷ rest) live) (block_is) partition))

      here :
          (max < needed size align base
            → IsAnswer start size align ((before ++ (base, max) ∷ []) ++ rest) live (
                allocate_loop fuel size align
                  (last_of 0 (before ++ (base, max) ∷ []))
                  (h.store base).next
                  h))
          → IsAnswer start size align
              (before ++ (base, max) ∷ rest)
              live
              (allocate_loop (suc fuel) size align (last_of 0 before) base h)
      here onwards =
          let not_null : (base == 0) ≡ false = ground arith in
          let intact =
            (==_iff (calculate_check_sum (h.store base)) (h.store base).check_sum).1 sum in
          rw (not_null, intact)
            (if_cases (IsAnswer start size align (before ++ (base, max) ∷ rest) live)
              (leb ((size + 20 + stuff) % 2 ^ 32) (h.store base).size) _ _
              (λ f. grant (leb→le ((size + 20 + stuff) % 2 ^ 32) (h.store base).size f))
              (λ f.
                let same_stuff = ap (λ a. get_byte_stuff_for_align (a + 20) align) at in
                let tight : max < needed size align base =
                  ground (arith, f, need_is, same_stuff, sized) in
                subst
                  (λ p.
                    IsAnswer start size align (before ++ (base, max) ∷ rest) live
                      (allocate_loop fuel size align p (h.store base).next h))
                  (last_of-append 0 base max before)
                  (subst
                    (λ l. IsAnswer start size align l live (
                      allocate_loop fuel size align (last_of 0 (before ++ (base, max) ∷ []))
                        (h.store base).next h))
                    (append_assoc before ((base, max) ∷ []) rest) (onwards tight))))

-- On a well-formed heap with a free block, for a request whose size and alignment with a tracker
-- fit 32 bits, `DMM_AllocateForKernel` refuses an alignment that is no power of two. Else it ends:
-- it answers an aligned address with room for the request in a block that was not in use, keeps
-- the blocks that were in use, and each address of the heap is still in exactly one block; or it
-- is out of memory, and no free block is large enough.
pub allocate_for_kernel-IsAnswer :
    (start size align : ℕ) (h : Heap) (free : List (ℕ × ℕ)) (live : List Used)
    → IsHeap start h free live
    → 0 < h.aut_address
    → size + 20 + align < 2 ^ 32
    → (is_align_number align ≡ false → allocate_for_kernel start size align h ≡ thrown bad_align)
      × (is_align_number align ≡ true
          → IsAnswer start size align free live (allocate_for_kernel start size align h))
unfolding allocate_for_kernel with_head
allocate_for_kernel-IsAnswer start size align h free live (chain, used, partition) some_free small =
    let headed : (h.aut_address == 0) ≡ false = ground arith in
    rw headed (
      (λ bad. rw bad refl),
      λ good. rw good (
          allocate_loop-IsAnswer start size align live h small used (mem_kernel_heap_size / 20 + 2)
            h.aut_address [] free refl chain partition tt
            (omega (arith, free_blocks-le h.store h.aut_address start free live chain partition))),
    )
