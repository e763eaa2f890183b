-- ===== src/Util/Text/Number.antt =====
-- A number as decimal text, read back.
use upanix_os.Base.{
  ℕ, zero, suc, ◌+◌, ◌-◌, ◌*◌, ◌/◌, ◌^◌, ◌≤◌, ◌<◌, ◌≡◌, refl, true, false, List, [], ◌∷◌, ◌++◌,
  Option, none, some, ◌==◌, length, length-append, arith, All, All-append, if_cases, ==_iff,
}
use native.Mathlib.Nat.{pow-suc}
use upanix_os.Util.Text.{from_num_loop, digit, reversed, more_digits, string_from_num}

-- Decimal text, read from its first digit.
pub read_number : ℕ → List ℕ → ℕ
read_number value [] = value
read_number value (c ∷ text) = read_number (value * 10 + (c - 0x30)) text

abbrev pub reverse_of : List ℕ → List ℕ
reverse_of [] = []
reverse_of (c ∷ text) = reverse_of text ++ c ∷ []

abbrev pub IsDigit : ℕ → Type 0
IsDigit c = (0x30 ≤ c) × (c ≤ 0x39)

nothing_read : read_number 0 [] ≡ 0
unfolding read_number
nothing_read = refl

read_number-append :
    (text : List ℕ) (value c : ℕ)
    → read_number value (text ++ c ∷ []) ≡ read_number value text * 10 + (c - 0x30)
unfolding read_number
read_number-append [] value c = refl
read_number-append (d ∷ text) value c = read_number-append text (value * 10 + (d - 0x30)) c

-- The digits that the loop leaves, last first.
abbrev pub Leaves : ℕ → ℕ → Option (List ℕ) → Type 0
Leaves n most none = ⊥
Leaves n most (some ds) =
    (read_number 0 (reverse_of ds) ≡ n) × (length ds ≤ most) × (1 ≤ length ds) × All IsDigit ds

last_digit : (n most : ℕ) → n / 10 ≡ 0 → Leaves n (suc most) (some (digit n ∷ []))
last_digit n most h = (
  omega (arith, read_number-append [] 0 (digit n), start),
  omega arith,
  omega arith,
  ((omega arith, omega arith), tt),
)
  where
    start : read_number 0 [] ≡ 0
    start = nothing_read

before_digit :
    (n most : ℕ) (r : Option (List ℕ))
    → Leaves (n / 10) most r
    → Leaves n (suc most) (more_digits (digit n) r)
before_digit n most none f = f
before_digit n most (some ds) (value, long, some_digit, digits) = (
  omega (arith, read_number-append (reverse_of ds) 0 (digit n)),
  omega arith,
  omega arith,
  ((omega arith, omega arith), digits),
)

from_num_loop-Leaves :
    (most fuel i n : ℕ)
    → n < 10 ^ suc most
    → most < fuel
    → i + suc most < 128
    → Leaves n (suc most) (from_num_loop fuel i n)
unfolding from_num_loop
from_num_loop-Leaves most zero i n small enough room = absurd (omega arith)
from_num_loop-Leaves zero (suc fuel) i n small enough room =
    let in_room : (i + 1 == 128) ≡ false = ground arith in
    let ten : n < 10 = omega arith in
    let last : (n / 10 == 0) ≡ true = ground arith in
    rw (in_room, last) (last_digit n 0 (omega arith))
from_num_loop-Leaves (suc most) (suc fuel) i n small enough room =
    let in_room : (i + 1 == 128) ≡ false = ground arith in
    let small' = rw pow-suc at small in
    rw in_room (
      if_cases (Leaves n (suc (suc most))) (n / 10 == 0) _ _
        (λ e. last_digit n (suc most) ((==_iff (n / 10) 0).0 e))
        (λ _. before_digit n (suc most) (from_num_loop fuel (i + 1) (n / 10)) (
          from_num_loop-Leaves most fuel (i + 1) (n / 10) (omega arith) (omega arith)
            (omega arith))))

-- Decimal text of a number: it reads back as the number, has from 1 to `most` characters, and each is a digit.
abbrev pub IsText : ℕ → ℕ → Option (List ℕ) → Type 0
IsText n most none = ⊥
IsText n most (some text) =
    (read_number 0 text ≡ n) × (1 ≤ length text) × (length text ≤ most) × All IsDigit text

length-reverse_of : (ds : List ℕ) → length (reverse_of ds) ≡ length ds
length-reverse_of [] = refl
length-reverse_of (d ∷ ds) =
    omega (arith, length-append (reverse_of ds) (d ∷ []), length-reverse_of ds)

All-reverse_of : (ds : List ℕ) → All IsDigit ds → All IsDigit (reverse_of ds)
All-reverse_of [] h = tt
All-reverse_of (d ∷ ds) (h, hs) =
    All-append IsDigit (reverse_of ds) (d ∷ []) (All-reverse_of ds hs) (h, tt)

-- For a number of 32 bits, and a `strreverse` that reverses a string, `String_FromNum` ends with the NUL written, and leaves 1 to
-- 10 decimal digits that read back as the number.
pub string_from_num-IsText :
    (strreverse : List ℕ → List ℕ)
    → ((text : List ℕ) → strreverse text ≡ reverse_of text)
    → (n : ℕ) → n < 2 ^ 32
    → IsText n 10 (string_from_num strreverse n)
unfolding string_from_num
string_from_num-IsText strreverse reverses n small =
    turned (from_num_loop 128 0 n)
      (from_num_loop-Leaves 9 128 0 n (omega arith) (omega arith) (omega arith))
  where
    turned : (r : Option (List ℕ)) → Leaves n 10 r → IsText n 10 (reversed strreverse r)
    turned none f = f
    turned (some ds) (value, long, some_digit, digits) = rw (reverses ds) (
      value,
      omega (arith, length-reverse_of ds),
      omega (arith, length-reverse_of ds),
      All-reverse_of ds digits,
    )
