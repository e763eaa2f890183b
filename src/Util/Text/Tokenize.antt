-- ===== src/Util/Text/Tokenize.antt =====
-- The tokens of a string are its fields that are not empty.
use upanix_os.Base.{
  ℕ, zero, suc, ◌+◌, ◌-◌, ◌≤◌, ◌<◌, ◌≡◌, refl, sym, ap, ◌∙◌, true, false, List, [], ◌∷◌, ◌++◌, map,
  ltb, ◌==◌, if◌then◌else◌, length, length-append, take, drop, arith, Bool-cases, inl, inr, ==_iff,
  get_or, ◌≢◌,
}
use mathlib.Core.List.{append_assoc}
use upanix_os.Base.Int.{ℤ, pos, negsuc}
use upanix_os.Util.Text.{
  Call, end_token, next_index, tokenize_loop, string_tokenize, string_chr, chr_loop,
}

-- The fields between the separators, in order: one more than there are separators.
pub fields : ℕ → List ℕ → List ℕ → List (List ℕ)
fields token field [] = field ∷ []
fields token field (c ∷ src) =
    if c == token then field ∷ fields token [] src else fields token (field ++ c ∷ []) src

abbrev pub nonempty : List (List ℕ) → List (List ℕ)
nonempty [] = []
nonempty ([] ∷ rest) = nonempty rest
nonempty ((c ∷ field) ∷ rest) = (c ∷ field) ∷ nonempty rest

-- The text that a call passes.
abbrev pub text_of : List ℕ → Call → List ℕ
text_of src call = take call.len (drop call.start src)

-- Calls numbered from `k` on.
abbrev pub Numbered : ℕ → List Call → Type 0
Numbered k [] = Unit
Numbered k (call ∷ calls) = (call.index ≡ k) × Numbered (k + 1) calls

drop-append : (pre rest : List ℕ) → drop (length pre) (pre ++ rest) ≡ rest
drop-append [] rest = refl
drop-append (c ∷ pre) rest = drop-append pre rest

take-append : (field rest : List ℕ) → take (length field) (field ++ rest) ≡ field
take-append [] rest = refl
take-append (c ∷ field) rest = ap (◌∷◌ c) (take-append field rest)

-- What a run of the loop answers, at `pre` and the field so far, with `src` to come.
abbrev Answers : List ℕ → List (List ℕ) → ℕ → List Call × ℕ → Type 0
Answers whole pieces k (calls, size) =
    (map (text_of whole) calls ≡ pieces) × Numbered k calls × (size ≡ k + length calls)

text_of-field :
    (pre field after whole : List ℕ) (k start len : ℕ)
    → whole ≡ pre ++ (field ++ after)
    → start ≡ length pre
    → len ≡ length field
    → text_of whole (record { index = k; start = start; len = len }) ≡ field
text_of-field pre field after whole k start len e f g =
    rw (e, f, g, drop-append pre (field ++ after)) (take-append field after)

-- The field that ends here, before what the rest of the run answers.
end_token-Answers :
    (pre field after whole : List ℕ) (pieces : List (List ℕ)) (k start index size : ℕ)
    (calls : List Call)
    → whole ≡ pre ++ (field ++ after)
    → start ≡ length pre
    → index ≡ start + length field
    → Answers whole (nonempty pieces) (next_index index start k) (calls, size)
    → Answers whole (nonempty (field ∷ pieces)) k (end_token index start k calls, size)
unfolding end_token
end_token-Answers pre [] after whole pieces k start index size calls e f g answers =
    let none_here : ltb 0 (index - start) ≡ false = ground arith in
    rw none_here (rw none_here at answers)
end_token-Answers pre (c ∷ field) after whole pieces k start index size calls e f g answers =
    let some_here : ltb 0 (index - start) ≡ true = ground arith in
    let (texts, numbered, count) = rw some_here at answers in
    rw some_here (
      (λ i.
          text_of-field pre (c ∷ field) after whole k start (index - start) e f (omega arith) i
          ∷ texts i),
      (refl, numbered),
      omega arith,
    )

tokenize_loop-Answers :
    (token : ℕ) (src pre field whole : List ℕ) (k start index : ℕ)
    → whole ≡ pre ++ (field ++ src)
    → start ≡ length pre
    → index ≡ start + length field
    → Answers whole (nonempty (fields token field src)) k (tokenize_loop token src index start k)
unfolding tokenize_loop fields
tokenize_loop-Answers token [] pre field whole k start index e f g =
    end_token-Answers pre field [] whole [] k start index (next_index index start k) [] e f g
      (refl, tt, omega arith)
tokenize_loop-Answers token (c ∷ src) pre field whole k start index e f g =
    elim (Bool-cases (c == token)) [
      | inl s ↦
          let rest =
            tokenize_loop-Answers token src (pre ++ (field ++ c ∷ [])) [] whole
              (next_index index start k) (index + 1) (index + 1)
              (e
                ∙ ap (λ l. pre ++ l) (sym (append_assoc field (c ∷ []) src))
                ∙ sym (append_assoc pre (field ++ c ∷ []) src))
              (omega (arith, length-append pre (field ++ c ∷ []), length-append field (c ∷ [])))
              (omega arith) in
          rw s (
            end_token-Answers pre field (c ∷ src) whole (fields token [] src) k start index _ _ e f
              g rest)
      | inr s ↦
          let rest =
            tokenize_loop-Answers token src pre (field ++ c ∷ []) whole k start (index + 1)
              (e ∙ ap (λ l. pre ++ l) (sym (append_assoc field (c ∷ []) src))) f
              (omega (arith, length-append field (c ∷ []))) in
          rw s rest
    ]

-- `String_Tokenize` calls the tokenizer for the fields between the separators that are not empty, in order, numbers them from 0, and
-- answers how many they are.
pub string_tokenize_lem :
    (src : List ℕ) (token : ℕ)
    → (map (text_of src) (string_tokenize src token).0 ≡ nonempty (fields token [] src))
      × Numbered 0 (string_tokenize src token).0
      × ((string_tokenize src token).1 ≡ length (string_tokenize src token).0)
unfolding string_tokenize
string_tokenize_lem src token =
    let (texts, numbered, count) = tokenize_loop-Answers token src [] [] src 0 0 0 refl refl refl in
    (texts, numbered, omega (arith, count))

-- Where the first of a character stands.
abbrev pub FirstAt : ℕ → List ℕ → ℕ → ℤ → Type 0
FirstAt ch str from (pos n) =
    (from ≤ n)
    × (n < from + length str)
    × (get_or str (n - from) (suc ch) ≡ ch)
    × ((j : ℕ) → j < n - from → get_or str j ch ≢ ch)
FirstAt ch str from (negsuc k) = (k ≡ 0) × ((j : ℕ) → j < length str → get_or str j ch ≢ ch)

chr_loop-FirstAt : (str : List ℕ) (ch from : ℕ) → FirstAt ch str from (chr_loop str ch from)
unfolding chr_loop
chr_loop-FirstAt [] ch from = (refl, λ j h. absurd (omega arith))
chr_loop-FirstAt (c ∷ str) ch from = elim (Bool-cases (c == ch)) [
  | inl e ↦ rw e (here ((==_iff c ch).0 e))
  | inr e ↦ rw e (later (ne e) (chr_loop str ch (from + 1)) (chr_loop-FirstAt str ch (from + 1)))
]
  where
    zeroth : from - from ≡ 0
    zeroth = omega arith

    ne : (c == ch) ≡ false → c ≢ ch
    ne e = ground arith

    here : c ≡ ch → FirstAt ch (c ∷ str) from (pos from)
    here e = (omega arith, omega arith, rw zeroth e, λ j h. absurd (omega arith))

    each :
        c ≢ ch
        → (m : ℕ) → ((j : ℕ) → j < m → get_or str j ch ≢ ch)
        → (j : ℕ) → j < suc m
        → get_or (c ∷ str) j ch ≢ ch
    each n m f zero h = n
    each n m f (suc j) h = f j (omega arith)

    later : c ≢ ch → (z : ℤ) → FirstAt ch str (from + 1) z → FirstAt ch (c ∷ str) from z
    later n (pos k) (lo, hi, is, before) =
        let step : k - from ≡ suc (k - (from + 1)) = omega arith in
        (
          omega arith,
          omega arith,
          rw step is,
          λ j h. each n (k - (from + 1)) before j (omega arith),
        )
    later n (negsuc k) (zero_, none_) = (zero_, each n (length str) none_)

-- `String_Chr` answers the position of the first such character, or -1 if no character is it.
pub string_chr-FirstAt : (str : List ℕ) (ch : ℕ) → FirstAt ch str 0 (string_chr str ch)
unfolding string_chr
string_chr-FirstAt str ch = chr_loop-FirstAt str ch 0
