-- ===== src/Memory/Heap/Chain.antt =====
-- The list of free blocks, as a chain of trackers in memory.
use upanix_os.Base.{
  ℕ, ◌≤◌, ◌<◌, ◌≡◌, ◌≢◌, refl, ap, List, [], ◌∷◌, ◌++◌, ◌==◌, arith, Bool-cases, inl, inr, ==_iff,
}
use upanix_os.Memory.Heap.{Tracker, calculate_check_sum, update_check_sum, put}
use upanix_os.Memory.Heap.Cover.{cover, cover-cons, within-start}

-- The tracker of a free block.
abbrev pub IsBlock : (ℕ → Tracker) → ℕ → ℕ → Type 0
IsBlock store base size =
    ((store base).allocated_address ≡ base)
    × ((store base).size ≡ size)
    × (calculate_check_sum (store base) ≡ (store base).check_sum)

-- From address `a` through the blocks to address `c`.
abbrev pub Chain : (ℕ → Tracker) → ℕ → List (ℕ × ℕ) → ℕ → Type 0
Chain store a [] c = a ≡ c
Chain store a ((base, size) ∷ blocks) c =
    (a ≡ base)
    × (0 < base)
    × (20 ≤ size)
    × IsBlock store base size
    × Chain store (store base).next blocks c

pub Chain-append :
    (store : ℕ → Tracker) (a b c : ℕ) (xs ys : List (ℕ × ℕ))
    → Chain store a xs b
    → Chain store b ys c
    → Chain store a (xs ++ ys) c
Chain-append store a b c [] ys e h = rw e h
Chain-append store a b c ((base, size) ∷ xs) ys (e, positive, large, block, rest) h =
    (e, positive, large, block, Chain-append store (store base).next b c xs ys rest h)

-- A chain stands where the trackers at its blocks are the same.
pub Chain-frame :
    (s t : ℕ → Tracker) (a c : ℕ) (blocks : List (ℕ × ℕ))
    → ((x : ℕ) → 1 ≤ cover x blocks → t x ≡ s x)
    → Chain s a blocks c
    → Chain t a blocks c
Chain-frame s t a c [] same e = e
Chain-frame s t a c ((base, size) ∷ blocks) same (e, positive, large, block, rest) =
    let here =
      same base
        (omega (arith, cover-cons base base size blocks, within-start base size (omega arith))) in
    let onward =
      Chain-frame s t (s base).next c blocks
        (λ x h. same x (omega (arith, cover-cons x base size blocks))) rest in
    (e, positive, large, rw here block, rw here onward)

-- The last block of a chain, or what was before it.
abbrev pub last_of : ℕ → List (ℕ × ℕ) → ℕ
last_of p [] = p
last_of p ((base, size) ∷ blocks) = last_of base blocks

pub cover-last_of :
    (s : ℕ → Tracker) (a c p base size : ℕ) (blocks : List (ℕ × ℕ))
    → Chain s a ((base, size) ∷ blocks) c
    → 1 ≤ cover (last_of base blocks) ((base, size) ∷ blocks)
cover-last_of s a c p base size [] (e, positive, large, block, rest) =
    omega (arith, cover-cons base base size [], within-start base size (omega arith))
cover-last_of s a c p base size ((next, more) ∷ blocks) (e, positive, large, block, rest) = omega (
  arith,
  cover-last_of s (s base).next c base next more blocks rest,
  cover-cons (last_of next blocks) base size ((next, more) ∷ blocks),
)

abbrev pub linked : (ℕ → Tracker) → ℕ → ℕ → ℕ → Tracker
linked s prev link = put s prev (update_check_sum (record (s prev) { next = link }))

pub put-other : (s : ℕ → Tracker) (at x : ℕ) (t : Tracker) → x ≢ at → put s at t x ≡ s x
put-other s at x t ne = elim (Bool-cases (x == at)) [
  | inl e ↦ absurd (ne ((==_iff x at).0 e))
  | inr e ↦ rw e refl
]

pub put-same : (s : ℕ → Tracker) (at : ℕ) (t : Tracker) → put s at t at ≡ t
put-same s at t = rw ((==_iff at at).1 refl) refl

pub update_check_sum_lem :
    (t : Tracker) → calculate_check_sum (update_check_sum t) ≡ (update_check_sum t).check_sum
unfolding calculate_check_sum
update_check_sum_lem t = refl

-- The last block of a chain, made to point elsewhere.
pub linked-Chain :
    (s : ℕ → Tracker) (a c p base size link : ℕ) (blocks : List (ℕ × ℕ))
    → Chain s a ((base, size) ∷ blocks) c
    → ((x : ℕ) → cover x ((base, size) ∷ blocks) ≤ 1)
    → Chain (linked s (last_of base blocks) link) a ((base, size) ∷ blocks) link
linked-Chain s a c p base size link [] (e, positive, large, (at, sized, sum), rest) once =
    let t : Tracker = record (s base) { next = link } in
    let here = put-same s base (update_check_sum t) in
    (e, positive, large, rw here (at, sized, update_check_sum_lem t), rw here refl)
linked-Chain s a c p base size link ((next, more) ∷ blocks) (e, positive, large, block, rest) once =
    let last = last_of next blocks in
    let covered = cover-last_of s (s base).next c base next more blocks rest in
    let apart : base ≢ last = differs covered in
    let here = put-other s last base (update_check_sum (record (s last) { next = link })) apart in
    let onward =
      linked-Chain s (s base).next c base next more link blocks rest
        (λ x. omega (arith, once x, cover-cons x base size ((next, more) ∷ blocks))) in
    (e, positive, large, rw here block, rw here onward)
  where
    differs : 1 ≤ cover (last_of next blocks) ((next, more) ∷ blocks) → base ≢ last_of next blocks
    differs covered same = absurd (
        omega (
          arith,
          once base,
          cover-cons base base size ((next, more) ∷ blocks),
          within-start base size (omega arith),
          ap (λ x. cover x ((next, more) ∷ blocks)) same,
        ))
