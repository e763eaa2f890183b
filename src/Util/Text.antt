-- ===== src/Util/Text.antt =====
-- The functions on strings in util/StringUtil.cpp. A string is the list of its characters, before the
-- NUL that ends it. `strreverse` belongs to another library and is a parameter.
pub mod Tokenize
pub mod Number
mod Tests
use upanix_os.Base.{
  ℕ, zero, suc, ◌+◌, ◌-◌, ◌/◌, ◌%◌, Bool, true, false, List, [], ◌∷◌, Option, none, some, ltb, ◌==◌,
  if◌then◌else◌, length,
}
use upanix_os.Base.Int.{ℤ, pos, negsuc}

-- A call of the tokenizer: `tokenizer(iTokenIndex, src + start, len)`.
pub record Call : Type 0 where
  pub index : ℕ
  pub start : ℕ
  pub len : ℕ

-- The call that ends a token, if the token is not empty.
end_token : ℕ → ℕ → ℕ → List Call → List Call
end_token index start token_index calls =
    if ltb 0 (index - start)
    then record { index = token_index; start = start; len = index - start } ∷ calls
    else calls

abbrev pub next_index : ℕ → ℕ → ℕ → ℕ
next_index index start token_index = if ltb 0 (index - start) then token_index + 1 else token_index

-- The loop of `String_Tokenize`, over the characters from `index` on, with what follows it; the second part is
-- `*iListSize`.
tokenize_loop : ℕ → List ℕ → ℕ → ℕ → ℕ → List Call × ℕ
tokenize_loop token [] index start token_index =
    (end_token index start token_index [], next_index index start token_index)
tokenize_loop token (c ∷ src) index start token_index =
    let (calls, size) =
      tokenize_loop token src (index + 1) (if c == token then index + 1 else start)
        (if c == token then next_index index start token_index else token_index) in
    (if c == token then end_token index start token_index calls else calls, size)

-- `String_Tokenize`: the calls of the tokenizer in order, and the size of the list.
pub string_tokenize : List ℕ → ℕ → List Call × ℕ
string_tokenize src token = tokenize_loop token src 0 0 0

-- `String_Chr`
chr_loop : List ℕ → ℕ → ℕ → ℤ
chr_loop [] ch i = negsuc 0
chr_loop (c ∷ str) ch i = let rest = chr_loop str ch (i + 1) in if c == ch then pos i else rest

pub string_chr : List ℕ → ℕ → ℤ
string_chr str ch = chr_loop str ch 0

abbrev pub digit : ℕ → ℕ
digit n = n % 10 + 0x30

abbrev pub more_digits : ℕ → Option (List ℕ) → Option (List ℕ)
more_digits d none = none
more_digits d (some ds) = some (d ∷ ds)

-- The loop of `String_FromNum`, from position `i` on; `none` where it returns at position 128 with no NUL written.
from_num_loop : ℕ → ℕ → ℕ → Option (List ℕ)
from_num_loop zero i n = none
from_num_loop (suc fuel) i n =
    let rest = from_num_loop fuel (i + 1) (n / 10) in
    if i + 1 == 128
    then none
    else if n / 10 == 0
    then some (digit n ∷ [])
    else more_digits (digit n) rest

abbrev pub reversed : (List ℕ → List ℕ) → Option (List ℕ) → Option (List ℕ)
reversed strreverse none = none
reversed strreverse (some ds) = some (strreverse ds)

-- `String_FromNum`; the position bounds the rounds.
pub string_from_num : (List ℕ → List ℕ) → ℕ → Option (List ℕ)
string_from_num strreverse n = reversed strreverse (from_num_loop 128 0 n)
