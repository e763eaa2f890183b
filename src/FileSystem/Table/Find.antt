-- ===== src/FileSystem/Table/Find.antt =====
-- `FSManager_BinarySearch` on a cache in the order of block ids.
use mathlib.Core.Path.{subst}
use native.Mathlib.Decide.{dec_lt}
use upanix_os.Base.{
  ℕ, zero, suc, ◌+◌, ◌-◌, ◌/◌, ◌≤◌, ◌<◌, ◌≡◌, ◌≢◌, refl, ◌⊎◌, inl, inr, Bool, true, false, List,
  Option, none, some, arith, length, lt→ltb, ltb-false, leb, leb→le, three_way, Bool-cases, sym,
}
use upanix_os.FileSystem.Table.{Block, block_at, search_loop, clamp_pos, finish, binary_search}

abbrev pub IsSorted : List Block → Type 0
IsSorted blocks =
    (i j : ℕ) → i < j → j < length blocks → (block_at blocks i).id < (block_at blocks j).id

-- `target` is at `p`, or is not there and belongs at `p`.
abbrev pub Finds : List Block → ℕ → Bool × ℕ → Type 0
Finds blocks target (true, p) = (p < length blocks) × ((block_at blocks p).id ≡ target)
Finds blocks target (false, p) =
    (p ≤ length blocks)
    × ((i : ℕ) → i < p → (block_at blocks i).id < target)
    × ((i : ℕ) → p ≤ i → i < length blocks → target < (block_at blocks i).id)

-- What the loop leaves. It ends.
abbrev LoopFinds : List Block → ℕ → Option (Bool × Option ℕ) → Type 0
LoopFinds blocks target none = ⊥
LoopFinds blocks target (some (true, some p)) = Finds blocks target (true, p)
LoopFinds blocks target (some (true, none)) = ⊥
LoopFinds blocks target (some (false, some p)) = Finds blocks target (false, p)
LoopFinds blocks target (some (false, none)) = length blocks ≡ 0

-- The position goes with one of the bounds, once a round has set it.
abbrev Marks : List Block → ℕ → ℕ → Option ℕ → Type 0
Marks blocks low top none = (low ≡ 0) × (top ≡ length blocks)
Marks blocks low top (some p) = (p ≡ low) ⊎ (p ≡ top)

module _ (blocks : List Block) (target : ℕ) (sorted : IsSorted blocks) where
  -- Everything below `low` is too small, and from `top` on too large.
  record Narrows (low top : ℕ) (pos : Option ℕ) : Type 0 where
    ordered : low ≤ top
    within : top ≤ length blocks
    marks : Marks blocks low top pos
    below : (i : ℕ) → i < low → (block_at blocks i).id < target
    above : (i : ℕ) → top ≤ i → i < length blocks → target < (block_at blocks i).id

  Narrows-left :
      (low top mid : ℕ) (pos : Option ℕ)
      → Narrows low top pos
      → low ≤ mid
      → mid < top
      → target < (block_at blocks mid).id
      → Narrows low mid (some mid)
  Narrows-left low top mid pos n lo hi lt = record {
    ordered = lo;
    within = omega (arith, n.within);
    marks = inr refl;
    below = n.below;
    above = λ i p q. elim (dec_lt mid i) [
      | yes r ↦ omega (arith, sorted mid i r q)
      | no r ↦ let e : i ≡ mid = omega arith in rw e lt
    ];
  }

  Narrows-right :
      (low top mid : ℕ) (pos : Option ℕ)
      → Narrows low top pos
      → mid < top
      → (block_at blocks mid).id < target
      → Narrows (mid + 1) top (some (mid + 1))
  Narrows-right low top mid pos n hi lt = record {
    ordered = omega arith;
    within = n.within;
    marks = inl refl;
    below = λ i p. elim (dec_lt i mid) [
      | yes r ↦ omega (arith, sorted i mid r (omega (arith, n.within)))
      | no r ↦ let e : i ≡ mid = omega arith in rw e lt
    ];
    above = n.above;
  }

  Narrows-done :
      (low top : ℕ) (pos : Option ℕ)
      → Narrows low top pos
      → top ≤ low
      → LoopFinds blocks target (some (false, pos))
  Narrows-done low top none n h = omega (arith, n.marks)
  Narrows-done low top (some p) n h =
      let e : p ≡ low = omega (arith, n.marks, n.ordered) in
      (omega (arith, n.within, n.ordered), rw e n.below, λ i q. n.above i (omega arith))

  search_loop-LoopFinds :
      (fuel low top : ℕ) (pos : Option ℕ)
      → top - low ≤ fuel
      → Narrows low top pos
      → LoopFinds blocks target (search_loop fuel blocks target low top pos)
  unfolding search_loop
  search_loop-LoopFinds zero low top pos hf n =
      rw (ltb-false low top (omega arith)) (Narrows-done low top pos n (omega arith))
  search_loop-LoopFinds (suc fuel) low top pos hf n = elim (dec_lt low top) [
    | no done ↦ rw (ltb-false low top (omega arith)) (Narrows-done low top pos n (omega arith))
    | yes more ↦
        let mid = (low + (top - 1)) / 2 in
        rw (lt→ltb low top more) (
          three_way (LoopFinds blocks target) target (block_at blocks mid).id _ _ _
            (λ e. (omega (arith, n.within), sym e))
            (λ lt.
              search_loop-LoopFinds fuel low mid (some mid) (omega arith)
                (Narrows-left low top mid pos n (omega arith) (omega arith) lt))
            (λ gt.
              search_loop-LoopFinds fuel (mid + 1) top (some (mid + 1)) (omega arith)
                (Narrows-right low top mid pos n (omega arith) gt)))
  ]

finish-Finds :
    (blocks : List Block) (target : ℕ) (r : Option (Bool × Option ℕ))
    → LoopFinds blocks target r
    → Finds blocks target (finish (length blocks) r)
unfolding finish
finish-Finds blocks target none h = absurd h
finish-Finds blocks target (some (true, none)) h = absurd h
finish-Finds blocks target (some (true, some p)) h = h
finish-Finds blocks target (some (false, none)) h =
    (omega arith, λ i p. absurd (omega arith), λ i p q. absurd (omega arith))
finish-Finds blocks target (some (false, some p)) h = elim (Bool-cases (leb (length blocks) p)) [
  | inr e ↦ rw (e, clamp_pos) h
  | inl e ↦
      let q : length blocks ≡ p = omega (arith, h.0, leb→le (length blocks) p e) in
      rw (e, clamp_pos) (subst (λ k. Finds blocks target (false, k)) (sym q) h)
]

LoopFinds-ended :
    (blocks : List Block) (target : ℕ) (o : Option (Bool × Option ℕ))
    → LoopFinds blocks target o
    → o ≢ none
LoopFinds-ended blocks target none h e = absurd h
LoopFinds-ended blocks target (some r) h e = ground (arith, e)

-- Where the ids of the blocks ascend, the search of the cache ends, in at most as many rounds as there are
-- blocks: it answers true with the index of the block that has the target's id, or false with the index at
-- which such a block belongs.
pub binary_search-Finds :
    (blocks : List Block) (target : ℕ)
    → IsSorted blocks
    → (search_loop (length blocks) blocks target 0 (length blocks) none ≢ none)
      × Finds blocks target (binary_search blocks target)
unfolding binary_search
binary_search-Finds blocks target sorted =
    let loop =
      search_loop-LoopFinds blocks target sorted (length blocks) 0 (length blocks) none
        (omega arith)
        (record {
          ordered = omega arith;
          within = omega arith;
          marks = (refl, refl);
          below = λ i p. absurd (omega arith);
          above = λ i p q. absurd (omega arith);
        }) in
    (LoopFinds-ended blocks target _ loop, finish-Finds blocks target _ loop)
