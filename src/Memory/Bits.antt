-- ===== src/Memory/Bits.antt =====
-- Single bits of a word: `w >> k & 1`, `w | 1 << k` and `w & ~(1 << k)`.
use Prim.Native.Nat.{bit_and, bit_or, digits, bit_and-bitwise, bit_or-bitwise, max}
use native.Mathlib.Nat.{pow-suc, div-div-eq-div-mul, mul_comm, div-one}
use upanix_os.Base.{
  ℕ, zero, suc, ◌+◌, ◌-◌, ◌*◌, ◌/◌, ◌%◌, ◌^◌, ◌≤◌, ◌<◌, min, ◌≡◌, refl, sym, ap, ◌∙◌, arith, ◌==◌,
  if◌then◌else◌,
}

-- `w >> k & 1`
pub bit : ℕ → ℕ → ℕ
bit w k = w / 2 ^ k % 2

-- `w | 1 << k`
unfoldable pub set_bit : ℕ → ℕ → ℕ
set_bit w k = bit_or w (2 ^ k)

-- `w & ~(1 << k)`: the word without the bits that it shares with `1 << k`.
pub clear_bit : ℕ → ℕ → ℕ
clear_bit w k = w - bit_and w (2 ^ k)

-- A recursion on binary digits answers the same with any count of digits that is large enough.
module _ (rest : ℕ → ℕ) (op : ℕ → ℕ → ℕ) where
  abbrev run : ℕ → ℕ → ℕ → ℕ
  run count w v = digits rest op count w v

  spare_digit : (count w v : ℕ) → w ≤ count → run (suc count) w v ≡ run count w v
  spare_digit zero zero v h = refl
  spare_digit zero (suc w) v h = absurd (omega arith)
  spare_digit (suc count) zero v h = refl
  spare_digit (suc count) (suc w) v h =
      ap (λ r. r * 2 + op (suc w % 2) (v % 2)) (spare_digit count (suc w / 2) (v / 2) (omega arith))

  spare_digits : (spare count w v : ℕ) → count ≡ w + spare → run count w v ≡ run w w v
  spare_digits zero count w v e = ap (λ c. run c w v) (e ∙ omega arith)
  spare_digits (suc spare) count w v e =
      let next : count ≡ suc (w + spare) = omega arith in
      ap (λ c. run c w v) next
      ∙ spare_digit (w + spare) w v (omega arith)
      ∙ spare_digits spare (w + spare) w v refl

  -- The lowest digit stands apart from the others.
  low_digit :
      (w v : ℕ)
      → run (suc w) (suc w) v ≡ run (suc w / 2) (suc w / 2) (v / 2) * 2 + op (suc w % 2) (v % 2)
  low_digit w v =
      let count : w ≡ suc w / 2 + (w - suc w / 2) = omega arith in
      ap (λ r. r * 2 + op (suc w % 2) (v % 2))
        (spare_digits (w - suc w / 2) w (suc w / 2) (v / 2) count)

nothing-bit_and : (v : ℕ) → bit_and 0 v ≡ 0
nothing-bit_and v = bit_and-bitwise 0 v

nothing-bit_or : (v : ℕ) → bit_or 0 v ≡ v
nothing-bit_or v = bit_or-bitwise 0 v

low-bit_and : (w v : ℕ) → bit_and w v ≡ bit_and (w / 2) (v / 2) * 2 + min (w % 2) (v % 2)
low-bit_and zero v = omega (arith, nothing-bit_and v, nothing-bit_and (v / 2))
low-bit_and (suc w) v =
    bit_and-bitwise (suc w) v
    ∙ low_digit (λ _. 0) min w v
    ∙ ap (λ r. r * 2 + min (suc w % 2) (v % 2)) (sym (bit_and-bitwise (suc w / 2) (v / 2)))

low-bit_or : (w v : ℕ) → bit_or w v ≡ bit_or (w / 2) (v / 2) * 2 + max (w % 2) (v % 2)
low-bit_or zero v = omega (arith, nothing-bit_or v, nothing-bit_or (v / 2))
low-bit_or (suc w) v =
    bit_or-bitwise (suc w) v
    ∙ low_digit (λ r. r) max w v
    ∙ ap (λ r. r * 2 + max (suc w % 2) (v % 2)) (sym (bit_or-bitwise (suc w / 2) (v / 2)))

-- With 0, and the bound on what two words share, by the number of digits.
no_mask : (count w : ℕ) → w ≤ count → (bit_and w 0 ≡ 0) × (bit_or w 0 ≡ w)
no_mask count zero h = (nothing-bit_and 0, nothing-bit_or 0)
no_mask zero (suc w) h = absurd (omega arith)
no_mask (suc count) (suc w) h =
    let half = no_mask count (suc w / 2) (omega arith) in
    (omega (arith, low-bit_and (suc w) 0, half.0), omega (arith, low-bit_or (suc w) 0, half.1))

bit_and-le : (count w v : ℕ) → w ≤ count → bit_and w v ≤ w
bit_and-le count zero v h = omega (arith, nothing-bit_and v)
bit_and-le zero (suc w) v h = absurd (omega arith)
bit_and-le (suc count) (suc w) v h =
    omega (arith, low-bit_and (suc w) v, bit_and-le count (suc w / 2) (v / 2) (omega arith))

-- The operations, one digit at a time.
pub bit-suc : (w k : ℕ) → bit w (suc k) ≡ bit (w / 2) k
unfolding bit
bit-suc w k = rw (pow-suc, mul_comm (2 ^ k) 2, ← div-div-eq-div-mul)

pub bit-zero : (w : ℕ) → bit w 0 ≡ w % 2
unfolding bit
bit-zero w = rw div-one

pub set_bit-zero : (w : ℕ) → set_bit w 0 ≡ w / 2 * 2 + 1
unfolding set_bit
set_bit-zero w = omega (arith, low-bit_or w 1, (no_mask (w / 2) (w / 2) (omega arith)).1)

pub set_bit-suc : (w k : ℕ) → set_bit w (suc k) ≡ set_bit (w / 2) k * 2 + w % 2
unfolding set_bit
set_bit-suc w k =
    let half : 2 ^ k * 2 / 2 ≡ 2 ^ k = omega arith in
    rw pow-suc (omega (arith, rw half at (low-bit_or w (2 ^ k * 2))))

pub clear_bit-zero : (w : ℕ) → clear_bit w 0 ≡ w / 2 * 2
unfolding clear_bit
clear_bit-zero w = omega (arith, low-bit_and w 1, (no_mask (w / 2) (w / 2) (omega arith)).0)

pub clear_bit-suc : (w k : ℕ) → clear_bit w (suc k) ≡ clear_bit (w / 2) k * 2 + w % 2
unfolding clear_bit
clear_bit-suc w k =
    let half : 2 ^ k * 2 / 2 ≡ 2 ^ k = omega arith in
    rw pow-suc (
      omega (
        arith,
        rw half at (low-bit_and w (2 ^ k * 2)),
        bit_and-le (w / 2) (w / 2) (2 ^ k) (omega arith),
      ))

-- Setting or clearing a bit changes that bit alone.
pub bit-set_bit : (w k j : ℕ) → bit (set_bit w k) j ≡ (if k == j then 1 else bit w j)
bit-set_bit w zero zero = omega (arith, bit-zero (set_bit w 0), set_bit-zero w)
bit-set_bit w zero (suc j) =
    let e : set_bit w 0 / 2 ≡ w / 2 = omega (arith, set_bit-zero w) in
    ground (arith, bit-suc (set_bit w 0) j, bit-suc w j, ap (λ v. bit v j) e)
bit-set_bit w (suc k) zero =
    ground (arith, bit-zero (set_bit w (suc k)), bit-zero w, set_bit-suc w k)
bit-set_bit w (suc k) (suc j) =
    let e : set_bit w (suc k) / 2 ≡ set_bit (w / 2) k = omega (arith, set_bit-suc w k) in
    ground (
      arith,
      bit-suc (set_bit w (suc k)) j,
      bit-suc w j,
      ap (λ v. bit v j) e,
      bit-set_bit (w / 2) k j,
    )

pub bit-clear_bit : (w k j : ℕ) → bit (clear_bit w k) j ≡ (if k == j then 0 else bit w j)
bit-clear_bit w zero zero = omega (arith, bit-zero (clear_bit w 0), clear_bit-zero w)
bit-clear_bit w zero (suc j) =
    let e : clear_bit w 0 / 2 ≡ w / 2 = omega (arith, clear_bit-zero w) in
    ground (arith, bit-suc (clear_bit w 0) j, bit-suc w j, ap (λ v. bit v j) e)
bit-clear_bit w (suc k) zero =
    ground (arith, bit-zero (clear_bit w (suc k)), bit-zero w, clear_bit-suc w k)
bit-clear_bit w (suc k) (suc j) =
    let e : clear_bit w (suc k) / 2 ≡ clear_bit (w / 2) k = omega (arith, clear_bit-suc w k) in
    ground (
      arith,
      bit-suc (clear_bit w (suc k)) j,
      bit-suc w j,
      ap (λ v. bit v j) e,
      bit-clear_bit (w / 2) k j,
    )

-- Neither leaves the width of the word.
pub set_bit-lt : (n w k : ℕ) → w < 2 ^ n → k < n → set_bit w k < 2 ^ n
set_bit-lt zero w k h lt = absurd (omega arith)
set_bit-lt (suc n) w zero h lt =
    let h' = rw pow-suc at h in rw pow-suc (omega (arith, set_bit-zero w))
set_bit-lt (suc n) w (suc k) h lt =
    let h' = rw pow-suc at h in
    rw pow-suc (omega (arith, set_bit-suc w k, set_bit-lt n (w / 2) k (omega arith) (omega arith)))

-- The largest word has every bit set, and is the only one.
pub all_bits : (n w : ℕ) → w < 2 ^ n → ((k : ℕ) → k < n → bit w k ≡ 1) → suc w ≡ 2 ^ n
all_bits zero w h all = omega arith
all_bits (suc n) w h all =
    let h' = rw pow-suc at h in
    rw pow-suc (
      omega (
        arith,
        all 0 (omega arith),
        bit-zero w,
        all_bits n (w / 2) (omega arith) (λ k lt. sym (bit-suc w k) ∙ all (suc k) (omega arith)),
      ))

pub bit-lt : (w k : ℕ) → bit w k < 2
unfolding bit
bit-lt w k = omega arith
