-- ===== src/Disk/Breaks.antt =====
-- drivers/DeviceDrive.cpp: the breaks of a request, between which sectors were not found, and a whole write.
use upanix_os.Base.{
  ℕ, zero, suc, ◌+◌, ◌-◌, ◌<◌, ◌≤◌, Bool, true, false, some, inl, inr, ◌⊎◌, ◌≡◌, refl, ap, ◌∙◌,
  arith, ltb, ltb-false, lt→ltb, if_cases, bind_some,
}
use upanix_os.Disk.Cache.{Sector}
use upanix_os.Disk.Drive.{DiskDrive, raw_write_all, first_break, last_break, write_cached}
use upanix_os.Disk.Coherent.{cached, listed, IsCoherent}
use upanix_os.Disk.Written.{
  Moved, Moved-trans, Moved-same, within, store_run-Moved, store_mixed-Moved,
}
use mathlib.Core.Path.{subst}
use native.Mathlib.Decide.{dec_le, dec_lt}

-- The first of `n` sectors from `a` that is not found, or where they end.
abbrev IsFirst : (ℕ → Bool) → ℕ → ℕ → ℕ → Type 0
IsFirst found n a x =
    (a ≤ x)
    × (x ≤ a + n)
    × ((j : ℕ) → a ≤ j → j < x → found j ≡ true)
    × (x < a + n → found x ≡ false)

-- The last of them that is not found, or `l` if all are.
abbrev IsLast : (ℕ → Bool) → ℕ → ℕ → ℕ → ℕ → Type 0
IsLast found n a l x =
    (x ≡ l) × ((j : ℕ) → a ≤ j → j < a + n → found j ≡ true)
    ⊎ (a ≤ x) × (x < a + n) × (found x ≡ false) × ((j : ℕ) → x < j → j < a + n → found j ≡ true)

-- What holds at `a` and from the next on holds from `a` on.
from_next :
    (found : ℕ → Bool) (a e : ℕ)
    → found a ≡ true
    → ((j : ℕ) → suc a ≤ j → j < e → found j ≡ true)
    → (j : ℕ) → a ≤ j
    → j < e
    → found j ≡ true
from_next found a e t all j le lt = elim (dec_lt a j) [
  | yes more ↦ all j more lt
  | no same ↦ subst (λ i. found i ≡ true) (omega (arith, le, same)) t
]

first_break_lem : (found : ℕ → Bool) (n a : ℕ) → IsFirst found n a (first_break found a n)
unfolding first_break
first_break_lem found zero a = (
  omega arith,
  omega arith,
  (λ j lo hi. absurd (omega (arith, lo, hi))),
  λ lt. absurd (omega (arith, lt)),
)
first_break_lem found (suc n) a =
    if_cases (IsFirst found (suc n) a) (found a) _ _
      (λ t.
        let (lo, hi, all, at) = first_break_lem found n (suc a) in
        (
          omega (arith, lo),
          omega (arith, hi),
          from_next found a (first_break found (suc a) n) t all,
          λ lt. at (omega (arith, lt)),
        ))
      λ f. (omega arith, omega arith, (λ j lo hi. absurd (omega (arith, lo, hi))), λ lt. f)

last_break_lem : (found : ℕ → Bool) (n a l : ℕ) → IsLast found n a l (last_break found a n l)
unfolding last_break
last_break_lem found zero a l = inl (refl, λ j lo hi. absurd (omega (arith, lo, hi)))
last_break_lem found (suc n) a l =
    if_cases (λ y. IsLast found (suc n) a l (last_break found (suc a) n y)) (found a) _ _
      (λ t. elim (last_break_lem found n (suc a) l) [
        | inl (e, all) ↦
            inl (e, from_next found a (a + suc n) t (λ j lo hi. all j lo (omega (arith, hi))))
        | inr (lo, hi, f, all) ↦
            inr (omega (arith, lo), omega (arith, hi), f, λ j lt le. all j lt (omega (arith, le)))
      ])
      λ f. elim (last_break_lem found n (suc a) a) [
        | inl (e, all) ↦ inr (
          omega (arith, e),
          omega (arith, e),
          ap found e ∙ f,
          λ j lt le. all j (omega (arith, lt, e)) (omega (arith, le)),
        )
        | inr (lo, hi, g, all) ↦
            inr (omega (arith, lo), omega (arith, hi), g, λ j lt le. all j lt (omega (arith, le)))
      ]

-- The two cases of a request.
pub data Breaks (found : ℕ → Bool) (start end first last : ℕ) : Type 0 where
  all_found :
      (first - start ≡ end - start)
      → (end - suc last ≡ 0)
      → ltb first end ≡ false
      → ((j : ℕ) → start ≤ j → j < end → found j ≡ true)
      → Breaks found start end first last
  some_missing :
      start ≤ first
      → first ≤ last
      → last < end
      → ((j : ℕ) → start ≤ j → j < first → found j ≡ true)
      → ((j : ℕ) → last < j → j < end → found j ≡ true)
      → Breaks found start end first last

pub breaks :
    (found : ℕ → Bool) (start end : ℕ)
    → Breaks found start end
        (first_break found start (end - start))
        (last_break found start (end - start) end)
breaks found start end =
    let (lo, hi, before, at) = first_break_lem found (end - start) start in
    elim (last_break_lem found (end - start) start end) [
      | inl (e, all) ↦
          let cache_full : first_break found start (end - start) ≡ start + (end - start) =
            elim (dec_lt (first_break found start (end - start)) (start + (end - start))) [
              | yes lt ↦ absurd (ground (arith, at lt, all _ lo lt))
              | no ge ↦ omega (arith, hi, ge)
            ] in
          all_found (omega (arith, cache_full)) (omega (arith, e))
            (ltb-false _ _ (omega (arith, cache_full)))
            (λ j le lt. all j le (omega (arith, lt, le)))
      | inr (low, high, f, after) ↦
          let ordered : first_break found start (end - start)
              ≤ last_break found start (end - start) end =
            elim (dec_le (first_break found start (end - start))
              (last_break found start (end - start) end)) [
                | yes le ↦ le
                | no gt ↦ absurd (ground (arith, f, before _ low (omega (arith, gt))))
              ] in
          some_missing lo ordered (omega (arith, low, high)) before
            (λ j le lt. after j le (omega (arith, le, lt, low)))
    ]

-- The three loops of a write cover the request.
pub write_cached-Moved :
    (buffer : ℕ → Sector) (start end : ℕ) (d : DiskDrive)
    → IsCoherent d
    → ((j : ℕ) → start ≤ j → j < end → listed d j ≡ false)
    → (u : DiskDrive) × (write_cached buffer start end d ≡ some u)
      × Moved (within start (end - start)) (λ j. buffer (j - start)) d u
unfolding write_cached
write_cached-Moved buffer start end d h apart =
    let found = cached d in
    let at = λ (k : ℕ). buffer (k - start) in
    let first = first_break found start (end - start) in
    let last = last_break found start (end - start) end in
    let fallback = λ (j : ℕ) (u : DiskDrive).
      raw_write_all first (suc (last - first)) (λ (i : ℕ). buffer (j - start + i)) u in
    elim (breaks found start end) [
      | all_found n none_left no_break all ↦
          let (d1, e1, m1) =
            store_run-Moved at (first - start) start d h
              (λ j le lt. all j le (omega (arith, lt, n)))
              (λ j le lt. apart j le (omega (arith, lt, n))) in
          let (d2, e2, m2) =
            store_run-Moved at (end - suc last) (suc last) d1 m1.coherent
              (λ j le lt. absurd (omega (arith, le, lt, none_left)))
              (λ j le lt. absurd (omega (arith, le, lt, none_left))) in
          (
            d2,
            bind_some (λ o. o ≡ some d2) _ d1 _ e1
                (bind_some (λ o. o ≡ some d2) _ d2 _ e2 (rw no_break refl)),
            Moved-same _ _ at d d2 (λ j. ground (arith, n, none_left))
                (Moved-trans _ _ at d d1 d2 m1 m2),
          )
      | some_missing lo mid hi before behind ↦
          let (d1, e1, m1) =
            store_run-Moved at (first - start) start d h
              (λ j le lt. before j le (omega (arith, lt, lo)))
              (λ j le lt. apart j le (omega (arith, lt, lo, mid, hi))) in
          let (d2, e2, m2) =
            store_run-Moved at (end - suc last) (suc last) d1 m1.coherent
              (λ j le lt.
                m1.stays j (ground (arith, le, lo, mid))
                  (apart j (omega (arith, le, lo, mid)) (omega (arith, lt, hi)))
                ∙ behind j le (omega (arith, lt, hi)))
              (λ j le lt.
                m1.lists j (apart j (omega (arith, le, lo, mid)) (omega (arith, lt, hi)))) in
          let m12 = Moved-trans _ _ at d d1 d2 m1 m2 in
          let (d3, e3, m3) =
            store_mixed-Moved found fallback at (suc (last - first)) first d2 m2.coherent
              (λ j le lt.
                m12.stays j (ground (arith, le, lt, lo, mid))
                  (apart j (omega (arith, le, lo)) (omega (arith, lt, mid, hi))))
              (λ j le lt.
                m12.lists j (apart j (omega (arith, le, lo)) (omega (arith, lt, mid, hi)))) in
          (
            d3,
            bind_some (λ o. o ≡ some d3) _ d1 _ e1
                (bind_some (λ o. o ≡ some d3) _ d2 _ e2
                  (rw (lt→ltb first end (omega (arith, mid, hi))) e3)),
            Moved-same _ _ at d d3 (λ j. ground (arith, lo, mid, hi))
                (Moved-trans _ _ at d d2 d3 m12 m3),
          )
    ]
