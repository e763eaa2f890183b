-- ===== src/Memory/Heap/Partition.antt =====
-- The blocks of the heap, free and in use, as a partition of its addresses.
use mathlib.Core.Path.{subst}
use upanix_os.Base.{
  ℕ, ◌+◌, ◌≤◌, ◌<◌, ◌≡◌, ◌≢◌, refl, sym, ap, false, List, [], ◌∷◌, ◌++◌, ◌==◌, arith,
}
use upanix_os.Memory.Heap.{
  Tracker, Heap, calculate_check_sum, update_check_sum, relink, mem_kernel_heap_size,
}
use upanix_os.Memory.Heap.Cover.{within, cover, cover-cons, within-inside}
use upanix_os.Memory.Heap.Chain.{
  Chain, Chain-append, Chain-frame, last_of, cover-last_of, linked, linked-Chain, put-other,
}

-- A block in use: its address, its size, and the bytes before its tracker.
abbrev pub Used : Type 0
Used = ℕ × ℕ × ℕ

abbrev pub spans : List Used → List (ℕ × ℕ)
spans [] = []
spans ((base, size, stuff) ∷ live) = (base, size) ∷ spans live

abbrev pub IsUsed : (ℕ → Tracker) → Used → Type 0
IsUsed store (base, size, stuff) =
    (0 < base)
    × (20 + stuff ≤ size)
    × ((store (base + stuff)).return_address ≡ base + 20 + stuff)
    × ((store (base + stuff)).size ≡ size)
    × ((store (base + stuff)).next ≡ stuff)
    × (calculate_check_sum (store (base + stuff)) ≡ (store (base + stuff)).check_sum)

abbrev pub AllUsed : (ℕ → Tracker) → List Used → Type 0
AllUsed store [] = Unit
AllUsed store (used ∷ live) = IsUsed store used × AllUsed store live

-- The chain of free blocks from the head, the trackers of the blocks in use, and each address of the heap, and no other, in
-- exactly one block.
abbrev pub IsPartition : ℕ → List (ℕ × ℕ) → List Used → Type 0
IsPartition start free live =
    (x : ℕ) → cover x free + cover x (spans live) ≡ within x start mem_kernel_heap_size

abbrev pub IsHeap : ℕ → Heap → List (ℕ × ℕ) → List Used → Type 0
IsHeap start h free live =
    Chain h.store h.aut_address free 0 × AllUsed h.store live × IsPartition start free live

pub AllUsed-frame :
    (s t : ℕ → Tracker) (live : List Used)
    → ((x : ℕ) → 1 ≤ cover x (spans live) → t x ≡ s x)
    → AllUsed s live
    → AllUsed t live
AllUsed-frame s t [] same h = tt
AllUsed-frame s t ((base, size, stuff) ∷ live) same (used, rest) =
    let here = same (base + stuff) (
      omega (
        arith,
        used.1,
        cover-cons (base + stuff) base size (spans live),
        within-inside (base + stuff) base size (omega arith) (omega (arith, used.1)),
      )) in
    (
      rw here used,
      AllUsed-frame s t live (λ x h. same x (omega (arith, cover-cons x base size (spans live))))
          rest,
    )

last_of-positive :
    (s : ℕ → Tracker) (a c base size : ℕ) (blocks : List (ℕ × ℕ))
    → Chain s a ((base, size) ∷ blocks) c
    → 0 < last_of base blocks
last_of-positive s a c base size [] (e, positive, large, block, rest) = positive
last_of-positive s a c base size ((next, more) ∷ blocks) (e, positive, large, block, rest) =
    last_of-positive s (s base).next c next more blocks rest

-- Relinking the block before, or the head, joins the chain up to it and the chain from the new place.
pub relink-Chain :
    (h : Heap) (aut link : ℕ) (before tail : List (ℕ × ℕ)) (live : List Used)
    → Chain h.store h.aut_address before aut
    → Chain h.store link tail 0
    → AllUsed h.store live
    → ((x : ℕ) → cover x before + cover x tail + cover x (spans live) ≤ 1)
    → Chain
        (relink (last_of 0 before) link h).store
        (relink (last_of 0 before) link h).aut_address
        (before ++ tail)
        0
      × AllUsed (relink (last_of 0 before) link h).store live
unfolding relink
relink-Chain h aut link [] tail live first second used once = (second, used)
relink-Chain h aut link ((base, size) ∷ before) tail live first second used once =
    let last = last_of base before in
    let not_first : (last == 0) ≡ false =
      let positive = last_of-positive h.store h.aut_address aut base size before first in
      ground arith in
    let covered = cover-last_of h.store h.aut_address aut 0 base size before first in
    let changed = update_check_sum (record (h.store last) { next = link }) in
    let is : relink last link h ≡ record h { store = linked h.store last link } =
      rw not_first refl in
    subst
      (λ k. Chain k.store k.aut_address (((base, size) ∷ before) ++ tail) 0 × AllUsed k.store live)
      (sym is)
      (
        Chain-append (linked h.store last link) h.aut_address link 0 ((base, size) ∷ before) tail
            (linked-Chain h.store h.aut_address aut 0 base size link before first
              (λ x. omega (arith, once x)))
            (Chain-frame h.store (linked h.store last link) link 0 tail
              (λ x c. put-other h.store last x changed (differs x covered c)) second),
        AllUsed-frame h.store (linked h.store last link) live
            (λ x c. put-other h.store last x changed (apart x covered c)) used,
      )
  where
    differs :
        (x : ℕ)
        → 1 ≤ cover (last_of base before) ((base, size) ∷ before)
        → 1 ≤ cover x tail
        → x ≢ last_of base before
    differs x covered c same =
        absurd (omega (arith, once (last_of base before), ap (λ y. cover y tail) same))

    apart :
        (x : ℕ)
        → 1 ≤ cover (last_of base before) ((base, size) ∷ before)
        → 1 ≤ cover x (spans live)
        → x ≢ last_of base before
    apart x covered c same =
        absurd (omega (arith, once (last_of base before), ap (λ y. cover y (spans live)) same))
