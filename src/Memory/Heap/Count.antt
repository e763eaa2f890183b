-- ===== src/Memory/Heap/Count.antt =====
-- There are no more free blocks than the heap has room for.
use native.Mathlib.Decide.{dec_le}
use upanix_os.Base.{
  ℕ, zero, suc, ◌+◌, ◌-◌, ◌*◌, ◌/◌, ◌≤◌, ◌<◌, min, ◌≡◌, refl, List, [], ◌∷◌, length, arith,
}
use upanix_os.Memory.Heap.{Tracker, mem_kernel_heap_size}
use upanix_os.Memory.Heap.Cover.{within, cover, cover-cons}
use upanix_os.Memory.Heap.Chain.{Chain}
use upanix_os.Memory.Heap.Partition.{Used, IsPartition}

-- The sum of `f` below `n`.
sum_below : ℕ → (ℕ → ℕ) → ℕ
sum_below zero f = 0
sum_below (suc n) f = sum_below n f + f n

sum_below-le : (n : ℕ) (f g : ℕ → ℕ) → ((x : ℕ) → f x ≤ g x) → sum_below n f ≤ sum_below n g
unfolding sum_below
sum_below-le zero f g h = omega arith
sum_below-le (suc n) f g h = omega (arith, sum_below-le n f g h, h n)

sum_below-plus :
    (n : ℕ) (f g : ℕ → ℕ) → sum_below n (λ x. f x + g x) ≡ sum_below n f + sum_below n g
unfolding sum_below
sum_below-plus zero f g = refl
sum_below-plus (suc n) f g = omega (arith, sum_below-plus n f g)

sum_below-within :
    (n base size : ℕ) → sum_below n (λ x. within x base size) ≡ min n (base + size) - min n base
unfolding sum_below
sum_below-within zero base size = omega arith
sum_below-within (suc n) base size = ground (arith, sum_below-within n base size)

-- Blocks of 20 bytes or more that end below `n`, one after the other.
count_blocks :
    (s : ℕ → Tracker) (a c n : ℕ) (blocks : List (ℕ × ℕ))
    → Chain s a blocks c
    → ((x : ℕ) → n ≤ x → cover x blocks ≡ 0)
    → length blocks * 20 ≤ sum_below n (λ x. cover x blocks)
count_blocks s a c n [] e ends = omega arith
count_blocks s a c n ((base, size) ∷ blocks) (e, positive, large, block, rest) ends =
    let plus =
      sum_below-le n (λ x. within x base size + cover x blocks)
        (λ x. cover x ((base, size) ∷ blocks))
        (λ x. omega (arith, cover-cons x base size blocks)) in
    let last = cover-cons (base + size - 1) base size blocks in
    let inside = end_inside (omega arith) in
    let bound = ends_by (omega arith) in
    omega (
      arith,
      plus,
      sum_below-plus n (λ x. within x base size) (λ x. cover x blocks),
      sum_below-within n base size,
      bound,
      count_blocks s (s base).next c n blocks rest
          (λ x h. omega (arith, ends x h, cover-cons x base size blocks)),
    )
  where
    end_inside : 0 < size → within (base + size - 1) base size ≡ 1
    end_inside h = ground arith

    ends_by : 0 < size → base + size ≤ n
    ends_by h = elim (dec_le (base + size) n) [
      | yes le ↦ le
      | no gt ↦ absurd (
          omega (
            arith,
            ends (base + size - 1) (omega arith),
            cover-cons (base + size - 1) base size blocks,
            end_inside h,
          ))
    ]

pub free_blocks-le :
    (s : ℕ → Tracker) (a start : ℕ) (free : List (ℕ × ℕ)) (live : List Used)
    → Chain s a free 0
    → IsPartition start free live
    → length free ≤ mem_kernel_heap_size / 20
free_blocks-le s a start free live chain partition = omega (
  arith,
  count_blocks s a 0 (start + mem_kernel_heap_size) free chain
      (λ x h. omega (arith, partition x, beyond x h)),
  sum_below-le (start + mem_kernel_heap_size) (λ x. cover x free)
      (λ x. within x start mem_kernel_heap_size) (λ x. omega (arith, partition x)),
  sum_below-within (start + mem_kernel_heap_size) start mem_kernel_heap_size,
)
  where
    beyond : (x : ℕ) → start + mem_kernel_heap_size ≤ x → within x start mem_kernel_heap_size ≡ 0
    beyond x h = ground arith
