-- ===== src/Memory/Heap/Cover.antt =====
-- How often a list of blocks covers an address.
use upanix_os.Base.{
  ℕ, ◌+◌, ◌≤◌, ◌<◌, ◌≡◌, refl, List, [], ◌∷◌, ◌++◌, ltb, leb, if◌then◌else◌, arith,
}

-- A block: its address and its size.
abbrev pub within : ℕ → ℕ → ℕ → ℕ
within a base size = if leb base a then (if ltb a (base + size) then 1 else 0) else 0

pub cover : ℕ → List (ℕ × ℕ) → ℕ
cover a [] = 0
cover a ((base, size) ∷ blocks) = within a base size + cover a blocks

pub cover-cons :
    (a base size : ℕ) (blocks : List (ℕ × ℕ))
    → cover a ((base, size) ∷ blocks) ≡ within a base size + cover a blocks
unfolding cover
cover-cons a base size blocks = refl

pub cover-nil : (a : ℕ) → cover a [] ≡ 0
unfolding cover
cover-nil a = refl

pub cover-append : (a : ℕ) (xs ys : List (ℕ × ℕ)) → cover a (xs ++ ys) ≡ cover a xs + cover a ys
unfolding cover
cover-append a [] ys = omega arith
cover-append a ((base, size) ∷ xs) ys = omega (arith, cover-append a xs ys)

pub within-start : (base size : ℕ) → 0 < size → within base base size ≡ 1
within-start base size h = ground arith

pub within-inside : (a base size : ℕ) → base ≤ a → a < base + size → within a base size ≡ 1
within-inside a base size lo hi = ground arith

pub within-split :
    (a base first second : ℕ)
    → within a base (first + second) ≡ within a base first + within a (base + first) second
within-split a base first second = ground arith
