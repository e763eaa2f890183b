-- ===== src/Memory/PageMap/Search.antt =====
-- The search for a clear bit in a map, and the effect of setting and clearing one.
use native.Mathlib.Nat.{pow-suc}
use native.Mathlib.Decide.{dec_lt}
use upanix_os.Base.{
  ℕ, zero, suc, ◌+◌, ◌*◌, ◌/◌, ◌%◌, ◌^◌, ◌≤◌, ◌<◌, ◌≡◌, refl, ◌∙◌, List, Option, none, some, arith,
  get_or, ◌==◌, true, Bool-cases, inl, inr, if_cases, ==_iff,
}
use upanix_os.Memory.Bits.{bit, bit-zero, bit-suc}
use upanix_os.Memory.PageMap.{free_offset, find_free, all_ones}

-- The bit of a page.
abbrev pub page_bit : List ℕ → ℕ → ℕ
page_bit map page = bit (get_or map (page / 32) 0) (page % 32)

-- A word whose bits are all set, as a number.
pub ones-bit : (n w k : ℕ) → suc w ≡ 2 ^ n → k < n → bit w k ≡ 1
ones-bit zero w k e h = absurd (omega arith)
ones-bit (suc n) w zero e h = let e' = rw pow-suc at e in omega (arith, bit-zero w)
ones-bit (suc n) w (suc k) e h =
    let e' = rw pow-suc at e in rw bit-suc (ones-bit n (w / 2) k (omega arith) (omega arith))

-- What the inner loop answers: the first clear bit, or that there is none.
abbrev pub FirstFree : ℕ → ℕ → ℕ → Option ℕ → Type 0
FirstFree left offset entry none = (k : ℕ) → k < left → bit entry k ≡ 1
FirstFree left offset entry (some o) =
    (k : ℕ) × (o ≡ offset + k)
    × (k < left)
    × (bit entry k ≡ 0)
    × ((j : ℕ) → j < k → bit entry j ≡ 1)

free_offset-FirstFree :
    (left offset entry : ℕ) → FirstFree left offset entry (free_offset left offset entry)
unfolding free_offset
free_offset-FirstFree zero offset entry = λ k h. absurd (omega arith)
free_offset-FirstFree (suc left) offset entry = elim (Bool-cases (entry % 2 == 0)) [
  | inl e ↦
      rw e
        (0, omega arith, omega arith, ground (arith, bit-zero entry), λ j h. absurd (omega arith))
  | inr e ↦ rw e (
      later (free_offset left (offset + 1) (entry / 2))
        (free_offset-FirstFree left (offset + 1) (entry / 2)) (ground arith))
]
  where
    low :
        entry % 2 ≡ 1
        → (j k : ℕ) → ((i : ℕ) → i < k → bit (entry / 2) i ≡ 1)
        → j < suc k
        → bit entry j ≡ 1
    low odd zero k below h = omega (arith, bit-zero entry)
    low odd (suc j) k below h = bit-suc entry j ∙ below j (omega arith)

    later :
        (r : Option ℕ)
        → FirstFree left (offset + 1) (entry / 2) r
        → entry % 2 ≡ 1
        → FirstFree (suc left) offset entry r
    later none f odd = λ k h. low odd k left f h
    later (some o) (k, e, lt, z, below) odd =
        (suc k, omega arith, omega arith, bit-suc entry k ∙ z, λ j h. low odd j k below h)

-- What the outer loop answers, in pages: the first page whose bit is clear, or that there is none.
abbrev pub FirstPage : ℕ → ℕ → List ℕ → Option (ℕ × ℕ) → Type 0
FirstPage left i map none =
    (page : ℕ) → i * 32 ≤ page → page < (i + left) * 32 → page_bit map page ≡ 1
FirstPage left i map (some (q, o)) =
    (i ≤ q)
    × (q < i + left)
    × (o < 32)
    × (page_bit map (q * 32 + o) ≡ 0)
    × ((page : ℕ) → i * 32 ≤ page → page < q * 32 + o → page_bit map page ≡ 1)

pub find_free-FirstPage :
    (left i : ℕ) (map : List ℕ)
    → ((j : ℕ) → get_or map j 0 < 2 ^ 32)
    → FirstPage left i map (find_free left i map)
unfolding find_free
find_free-FirstPage zero i map small = λ page lo hi. absurd (omega arith)
find_free-FirstPage (suc left) i map small =
    if_cases (FirstPage (suc left) i map) (get_or map i 0 % 2 ^ 32 == all_ones) _ _
      (λ full.
        skip (find_free left (i + 1) map) (find_free-FirstPage left (i + 1) map small)
          (λ k h. ones-bit 32 (get_or map i 0) k (ones full) h))
      (λ _.
        inner (find_free-FirstPage left (i + 1) map small) (free_offset 32 0 (get_or map i 0))
          (free_offset-FirstFree 32 0 (get_or map i 0)))
  where
    ones : (get_or map i 0 % 2 ^ 32 == all_ones) ≡ true → suc (get_or map i 0) ≡ 2 ^ 32
    ones e = omega (arith, small i, (==_iff (get_or map i 0 % 2 ^ 32) all_ones).0 e)

    -- Page `page` of word `i`, by its bit.
    in_word :
        (page k : ℕ) → page / 32 ≡ i → page % 32 ≡ k → page_bit map page ≡ bit (get_or map i 0) k
    in_word page k e f = rw (e, f)

    skip :
        (r : Option (ℕ × ℕ))
        → FirstPage left (i + 1) map r
        → ((k : ℕ) → k < 32 → bit (get_or map i 0) k ≡ 1)
        → FirstPage (suc left) i map r
    skip none f full = λ page lo hi. elim (dec_lt page ((i + 1) * 32)) [
      | yes here ↦ in_word page (page % 32) (omega arith) refl ∙ full (page % 32) (omega arith)
      | no there ↦ f page (omega arith) (omega arith)
    ]
    skip (some (q, o)) (ge, lt, small', z, below) full = (
      omega arith,
      omega arith,
      small',
      z,
      λ page lo hi. elim (dec_lt page ((i + 1) * 32)) [
        | yes here ↦ in_word page (page % 32) (omega arith) refl ∙ full (page % 32) (omega arith)
        | no there ↦ below page (omega arith) hi
      ],
    )

    inner :
        FirstPage left (i + 1) map (find_free left (i + 1) map)
        → (r : Option ℕ) → FirstFree 32 0 (get_or map i 0) r
        → FirstPage
            (suc left)
            i
            map
            (elim r [ some o ↦ some (i, o) | none ↦ find_free left (i + 1) map ])
    inner ih none f = skip (find_free left (i + 1) map) ih f
    inner ih (some o) (k, e, lt, z, below) = (
      omega arith,
      omega arith,
      omega arith,
      in_word (i * 32 + o) k (omega arith) (omega arith) ∙ z,
      λ page lo hi. in_word page (page % 32) (omega arith) refl ∙ below (page % 32) (omega arith),
    )
