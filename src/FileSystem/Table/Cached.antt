-- ===== src/FileSystem/Table/Cached.antt =====
-- What the table cache holds, by block id, and how the changes to it show there.
use mathlib.Core.Path.{subst}
use native.Mathlib.Decide.{dec_lt}
use upanix_os.Base.{
  ℕ, zero, suc, ◌≤◌, ◌<◌, ◌≡◌, refl, ◌≢◌, true, false, List, [], ◌∷◌, Option, none, some, arith,
  length-set, get_or-set, length-insert_at, get_or-insert_at_lt, get_or-insert_at_self,
  get_or-insert_at_gt, sym, ap, Bool-cases, inl, inr, ==_iff, length, set, take, drop, insert_at,
  ◌==◌, if◌then◌else◌,
}
use upanix_os.FileSystem.Table.{Block, block_at, no_block}
use upanix_os.FileSystem.Table.Find.{IsSorted, Finds}

-- The block of that id, if it is cached.
unfoldable pub find_block : List Block → ℕ → Option Block
find_block [] target = none
find_block (b ∷ blocks) target = if b.id == target then some b else find_block blocks target

pub find_block-at :
    (blocks : List Block) (p target : ℕ)
    → p < length blocks
    → (block_at blocks p).id ≡ target
    → ((i : ℕ) → i < p → (block_at blocks i).id ≢ target)
    → find_block blocks target ≡ some (block_at blocks p)
unfolding find_block
find_block-at [] p target h e ne = absurd (omega arith)
find_block-at (b ∷ blocks) zero target h e ne = ground arith
find_block-at (b ∷ blocks) (suc p) target h e ne =
    ground (
      arith,
      ne 0,
      find_block-at blocks p target (omega arith) e (λ i lt. ne (suc i) (omega arith)),
    )

pub find_block_absent :
    (blocks : List Block) (target : ℕ)
    → ((i : ℕ) → i < length blocks → (block_at blocks i).id ≢ target)
    → find_block blocks target ≡ none
unfolding find_block
find_block_absent [] target ne = refl
find_block_absent (b ∷ blocks) target ne =
    ground (arith, ne 0, find_block_absent blocks target (λ i lt. ne (suc i) (omega arith)))

pub find_block-id :
    (blocks : List Block) (target : ℕ) (b : Block)
    → find_block blocks target ≡ some b
    → b.id ≡ target
unfolding find_block
find_block-id [] target b e = ground arith
find_block-id (x ∷ blocks) target b e = ground (arith, find_block-id blocks target b)

pub IsSorted-tail : (b : Block) (blocks : List Block) → IsSorted (b ∷ blocks) → IsSorted blocks
IsSorted-tail b blocks s i j lt h = s (suc i) (suc j) (omega arith) (omega arith)

pub IsSorted-head :
    (b : Block) (blocks : List Block) → IsSorted (b ∷ blocks) → find_block blocks b.id ≡ none
IsSorted-head b blocks s =
    find_block_absent blocks b.id (λ i lt. omega (arith, s 0 (suc i) (omega arith) (omega arith)))

-- The two searches agree.
pub find_block-found :
    (blocks : List Block) (p target : ℕ)
    → IsSorted blocks
    → Finds blocks target (true, p)
    → find_block blocks target ≡ some (block_at blocks p)
find_block-found blocks p target s f =
    find_block-at blocks p target f.0 f.1 (λ i lt. omega (arith, f.1, s i p lt f.0))

pub find_block-missing :
    (blocks : List Block) (p target : ℕ)
    → Finds blocks target (false, p)
    → find_block blocks target ≡ none
find_block-missing blocks p target f = find_block_absent blocks target λ i lt. elim (dec_lt i p) [
  | yes q ↦ omega (arith, f.1 i q)
  | no q ↦ omega (arith, f.2 i (omega arith) lt)
]

pub find_block-insert_at :
    (blocks : List Block) (p target : ℕ) (b : Block)
    → p ≤ length blocks
    → find_block blocks b.id ≡ none
    → find_block (insert_at p b blocks) target
      ≡ (if b.id == target then some b else find_block blocks target)
unfolding find_block
find_block-insert_at blocks zero target b h e = refl
find_block-insert_at [] (suc p) target b h e = refl
find_block-insert_at (x ∷ blocks) (suc p) target b h e =
    ground (arith, find_block-insert_at blocks p target b)

pub find_block-set :
    (blocks : List Block) (p target : ℕ) (b : Block)
    → p < length blocks
    → (block_at blocks p).id ≡ b.id
    → ((i : ℕ) → i < p → (block_at blocks i).id ≢ b.id)
    → find_block (set blocks p b) target
      ≡ (if b.id == target then some b else find_block blocks target)
unfolding find_block
find_block-set [] p target b h e ne = absurd (omega arith)
find_block-set (x ∷ blocks) zero target b h e ne = ground arith
find_block-set (x ∷ blocks) (suc p) target b h e ne = ground (
  arith,
  ne 0,
  find_block-set blocks p target b (omega arith) e (λ i lt. ne (suc i) (omega arith)),
)

-- Of a sorted cache the first `n` blocks and the rest share no id.
pub find_block-take :
    (n : ℕ) (blocks : List Block) (target : ℕ)
    → IsSorted blocks
    → find_block (take n blocks) target ≡ none
    → find_block (drop n blocks) target ≡ find_block blocks target
unfolding find_block
find_block-take zero blocks target s e = refl
find_block-take (suc n) [] target s e = refl
find_block-take (suc n) (b ∷ blocks) target s e =
    ground (arith, find_block-take n blocks target (IsSorted-tail b blocks s))

find_block-drop_absent :
    (n : ℕ) (blocks : List Block) (target : ℕ)
    → find_block blocks target ≡ none
    → find_block (drop n blocks) target ≡ none
unfolding find_block
find_block-drop_absent zero blocks target e = e
find_block-drop_absent (suc n) [] target e = refl
find_block-drop_absent (suc n) (b ∷ blocks) target e =
    find_block-drop_absent n blocks target (ground arith)

pub find_block-drop :
    (n : ℕ) (blocks : List Block) (target : ℕ) (b : Block)
    → IsSorted blocks
    → find_block (take n blocks) target ≡ some b
    → (find_block (drop n blocks) target ≡ none) × (find_block blocks target ≡ some b)
unfolding find_block
find_block-drop zero blocks target b s e = ground arith
find_block-drop (suc n) [] target b s e = ground arith
find_block-drop (suc n) (x ∷ blocks) target b s e = ground (
  arith,
  IsSorted-head x blocks s,
  find_block-drop_absent n blocks x.id,
  find_block-drop n blocks target b (IsSorted-tail x blocks s),
)

pub find_block-take_absent :
    (n : ℕ) (blocks : List Block) (target : ℕ)
    → find_block blocks target ≡ none
    → find_block (take n blocks) target ≡ none
unfolding find_block
find_block-take_absent zero blocks target e = refl
find_block-take_absent (suc n) [] target e = refl
find_block-take_absent (suc n) (b ∷ blocks) target e =
    ground (arith, find_block-take_absent n blocks target)

pub find_block_self : (b : Block) (blocks : List Block) → find_block (b ∷ blocks) b.id ≡ some b
unfolding find_block
find_block_self b blocks = ground arith

-- Past the head of a sorted cache, what is found is found in the whole.
pub find_block-tail :
    (b : Block) (blocks : List Block) (target : ℕ) (c : Block)
    → IsSorted (b ∷ blocks)
    → find_block blocks target ≡ some c
    → find_block (b ∷ blocks) target ≡ some c
unfolding find_block
find_block-tail b blocks target c s e = elim (Bool-cases (b.id == target)) [
  | inr q ↦ rw q e
  | inl q ↦ absurd (
      ground (
        arith,
        subst (λ k. find_block blocks k ≡ none) ((==_iff b.id target).0 q)
            (IsSorted-head b blocks s),
      ))
]

pub IsSorted-drop : (n : ℕ) (blocks : List Block) → IsSorted blocks → IsSorted (drop n blocks)
IsSorted-drop zero blocks s = s
IsSorted-drop (suc n) [] s = s
IsSorted-drop (suc n) (b ∷ blocks) s = IsSorted-drop n blocks (IsSorted-tail b blocks s)

-- Ids that grow from each block to the next ascend.
IsSorted-of_steps :
    (blocks : List Block)
    → ((i : ℕ) → suc i < length blocks → (block_at blocks i).id < (block_at blocks (suc i)).id)
    → IsSorted blocks
IsSorted-of_steps blocks up i zero lt h = absurd (omega arith)
IsSorted-of_steps blocks up i (suc j) lt h = elim (dec_lt i j) [
  | yes q ↦ omega (arith, IsSorted-of_steps blocks up i j q (omega arith), up j h)
  | no q ↦ let e : i ≡ j = omega arith in rw e (up j h)
]

-- Writing the block that stands at `p` in place keeps the cache sorted.
pub IsSorted-set :
    (blocks : List Block) (p : ℕ) (b : Block)
    → IsSorted blocks
    → p < length blocks
    → (block_at blocks p).id ≡ b.id
    → IsSorted (set blocks p b)
IsSorted-set blocks p b s h e i j lt hj = ground (
  arith,
  length-set blocks p b,
  get_or-set blocks p i b no_block h,
  get_or-set blocks p j b no_block h,
  s i j lt,
)

-- A block inserted where its id belongs keeps the cache sorted.
module _ (blocks : List Block) (p : ℕ) (b : Block) (s : IsSorted blocks)
    (f : Finds blocks b.id (false, p)) where
  abbrev id_at : ℕ → ℕ
  id_at i = (block_at (insert_at p b blocks) i).id

  id_at_lt : (i : ℕ) → i < p → id_at i ≡ (block_at blocks i).id
  id_at_lt i lt = ap (λ (c : Block). c.id) (get_or-insert_at_lt p i b no_block blocks f.0 lt)

  id_at_self : id_at p ≡ b.id
  id_at_self = ap (λ (c : Block). c.id) (get_or-insert_at_self p b no_block blocks f.0)

  id_at_gt : (i : ℕ) → p ≤ i → id_at (suc i) ≡ (block_at blocks i).id
  id_at_gt i ge = ap (λ (c : Block). c.id) (get_or-insert_at_gt p i b no_block blocks f.0 ge)

  step_beyond : (i : ℕ) → p < i → suc i < length (insert_at p b blocks) → id_at i < id_at (suc i)
  step_beyond zero past h = absurd (omega arith)
  step_beyond (suc k) past h =
      rw (id_at_gt k (omega arith), id_at_gt (suc k) (omega arith))
        (s k (suc k) (omega arith) (omega (arith, length-insert_at p b blocks)))

  step_up : (i : ℕ) → suc i < length (insert_at p b blocks) → id_at i < id_at (suc i)
  step_up i h = elim (dec_lt (suc i) p) [
    | yes lt ↦
        rw (id_at_lt i (omega arith), id_at_lt (suc i) lt)
          (s i (suc i) (omega arith) (omega (arith, f.0)))
    | no ge ↦ elim (dec_lt i p) [
      | yes lt ↦ let e : suc i ≡ p = omega arith in rw (e, id_at_self, id_at_lt i lt) (f.1 i lt)
      | no far ↦ elim (dec_lt p i) [
        | no here ↦
            let e : i ≡ p = omega arith in
            rw (id_at_gt i (omega arith)) (
              subst (λ k. id_at k < (block_at blocks i).id) (sym e)
                (rw id_at_self (f.2 i (omega arith) (omega (arith, length-insert_at p b blocks)))))
        | yes past ↦ step_beyond i past h
      ]
    ]
  ]

  pub IsSorted-insert_at : IsSorted (insert_at p b blocks)
  IsSorted-insert_at = IsSorted-of_steps (insert_at p b blocks) step_up
