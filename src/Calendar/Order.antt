-- ===== src/Calendar/Order.antt =====
-- The order of dates is the order of their numbers, so a number belongs to one date.
use upanix_os.Base.{
  ℕ, zero, suc, ◌+◌, ◌-◌, ◌≤◌, ◌<◌, ◌≡◌, ap, true, arith, ltb, Bool-cases, inl, inr, ltb→lt, ◌↔◌,
  ◌⊎◌, not,
}
use upanix_os.Calendar.{MDate, get_days_in_month_1, is_lesser, is_greater, is_equal, is_not_equal}
use upanix_os.Calendar.Ordinal.{year_start, month_start, at, ordinal, IsDate, year_end, month_end}

months_after : (y m k : ℕ) → month_start y m + get_days_in_month_1 m y ≤ month_start y (suc m + k)
months_after y m zero = omega (arith, month_end y m, ap (month_start y) (one m))
  where
    one : (m : ℕ) → suc m + 0 ≡ suc m
    one m = omega arith
months_after y m (suc k) =
    omega (arith, months_after y m k, month_end y (suc m + k), ap (month_start y) (next m k))
  where
    next : (m k : ℕ) → suc m + suc k ≡ suc (suc m + k)
    next m k = omega arith

pub month_start-lt :
    (y m n : ℕ) → m < n → month_start y m + get_days_in_month_1 m y ≤ month_start y n
month_start-lt y m n h =
    omega (arith, months_after y m (n - suc m), ap (month_start y) (whole (omega arith)))
  where
    whole : m < n → suc m + (n - suc m) ≡ n
    whole h = omega arith

years_after : (y k : ℕ) → year_start (suc y) ≤ year_start (suc y + k)
years_after y zero = omega (arith, ap year_start (one y))
  where
    one : (m : ℕ) → suc m + 0 ≡ suc m
    one m = omega arith
years_after y (suc k) =
    omega (arith, years_after y k, year_end (suc y + k), ap year_start (next y k))
  where
    next : (m k : ℕ) → suc m + suc k ≡ suc (suc m + k)
    next m k = omega arith

pub year_start-lt : (y z : ℕ) → y < z → year_start (suc y) ≤ year_start z
year_start-lt y z h = omega (arith, years_after y (z - suc y), ap year_start (whole (omega arith)))
  where
    whole : y < z → suc y + (z - suc y) ≡ z
    whole h = omega arith

pub at-le : (d m y : ℕ) → IsDate d m y → at d m y ≤ year_start (suc y)
at-le d m y ((lo, hi), one, top) = elim (Bool-cases (ltb m 12)) [
  | inl e ↦ omega (arith, month_start-lt y m 12 (ltb→lt m 12 e), year_end y)
  | inr e ↦
      let last : m ≡ 12 = ground arith in
      omega
        (arith, year_end y, ap (month_start y) last, ap (λ (k : ℕ). get_days_in_month_1 k y) last)
]

-- A day of the calendar, of any year.
abbrev pub IsDay : MDate → Type 0
IsDay date = IsDate date.day_of_month date.month date.year

-- Of two days of the calendar, the lesser has the lesser number.
lesser_year : (a b : MDate) → IsDay a → IsDay b → a.year < b.year → ordinal a < ordinal b
lesser_year a b va vb h =
    omega (arith, at-le a.day_of_month a.month a.year va, year_start-lt a.year b.year h, vb.1)

lesser_month :
    (a b : MDate) → IsDay a → IsDay b → a.year ≡ b.year → a.month < b.month → ordinal a < ordinal b
lesser_month a b va vb e h = omega (
  arith,
  va.2,
  vb.1,
  month_start-lt a.year a.month b.month h,
  ap year_start e,
  ap (λ (y : ℕ). month_start y b.month) e,
)

lesser_day :
    (a b : MDate)
    → a.year ≡ b.year
    → a.month ≡ b.month
    → a.day_of_month < b.day_of_month
    → ordinal a < ordinal b
lesser_day a b e f h =
    omega
      (arith, ap year_start e, ap (λ (y : ℕ). month_start y a.month) e, ap (month_start b.year) f)

-- The order by year, month and day.
abbrev pub Lesser : MDate → MDate → Type 0
Lesser a b =
    (a.year < b.year)
    ⊎ ((a.year ≡ b.year)
        × ((a.month < b.month) ⊎ ((a.month ≡ b.month) × (a.day_of_month < b.day_of_month))))

abbrev pub Same : MDate → MDate → Type 0
Same a b = (a.year ≡ b.year) × (a.month ≡ b.month) × (a.day_of_month ≡ b.day_of_month)

pub Lesser-ordinal : (a b : MDate) → IsDay a → IsDay b → Lesser a b → ordinal a < ordinal b
Lesser-ordinal a b va vb (inl h) = lesser_year a b va vb h
Lesser-ordinal a b va vb (inr (e, inl h)) = lesser_month a b va vb e h
Lesser-ordinal a b va vb (inr (e, inr (f, h))) = lesser_day a b e f h

pub Same-ordinal : (a b : MDate) → Same a b → ordinal a ≡ ordinal b
Same-ordinal a b (e, f, g) =
    omega (
      arith,
      g,
      ap year_start e,
      ap (λ (y : ℕ). month_start y a.month) e,
      ap (month_start b.year) f,
    )

pub trichotomy : (a b : MDate) → Lesser a b ⊎ (Same a b ⊎ Lesser b a)
trichotomy a b = ground arith

-- A number belongs to one day.
pub ordinal-Same : (a b : MDate) → IsDay a → IsDay b → ordinal a ≡ ordinal b → Same a b
ordinal-Same a b va vb e = elim (trichotomy a b) [
  | inl l ↦ let h = Lesser-ordinal a b va vb l in absurd (omega arith)
  | inr (inl s) ↦ s
  | inr (inr g) ↦ let h = Lesser-ordinal b a vb va g in absurd (omega arith)
]

pub is_lesser-Lesser : (a b : MDate) → (is_lesser a b ≡ true) ↔ Lesser a b
unfolding is_lesser
is_lesser-Lesser a b = ground arith

is_greater-Lesser : (a b : MDate) → (is_greater a b ≡ true) ↔ Lesser b a
unfolding is_greater
is_greater-Lesser a b = ground arith

pub is_equal-Same : (a b : MDate) → (is_equal a b ≡ true) ↔ Same a b
unfolding is_equal
is_equal-Same a b = ground arith

is_not_equal-is_equal : (a b : MDate) → is_not_equal a b ≡ not (is_equal a b)
unfolding is_not_equal is_equal
is_not_equal-is_equal a b = ground arith

-- For two days of the calendar, `mdate_IsLesser`, `mdate_IsGreater` and `mdate_IsEqual` hold exactly when
-- the number of the first is less than, greater than and equal to that of the second, and
-- `mdate_IsNotEqual` answers the opposite of `mdate_IsEqual`.
pub comparisons_of_ordinal :
    (a b : MDate)
    → IsDay a
    → IsDay b
    → ((is_lesser a b ≡ true) ↔ (ordinal a < ordinal b))
      × ((is_greater a b ≡ true) ↔ (ordinal b < ordinal a))
      × ((is_equal a b ≡ true) ↔ (ordinal a ≡ ordinal b))
      × (is_not_equal a b ≡ not (is_equal a b))
comparisons_of_ordinal a b va vb = (
  (
    λ e. Lesser-ordinal a b va vb ((is_lesser-Lesser a b).0 e),
    λ h. (is_lesser-Lesser a b).1 (backwards a b va vb h),
  ),
  (
    λ e. Lesser-ordinal b a vb va ((is_greater-Lesser a b).0 e),
    λ h. (is_greater-Lesser a b).1 (backwards b a vb va h),
  ),
  (
    λ e. Same-ordinal a b ((is_equal-Same a b).0 e),
    λ h. (is_equal-Same a b).1 (ordinal-Same a b va vb h),
  ),
  is_not_equal-is_equal a b,
)
  where
    backwards : (a b : MDate) → IsDay a → IsDay b → ordinal a < ordinal b → Lesser a b
    backwards a b va vb h = elim (trichotomy a b) [
      | inl l ↦ l
      | inr (inl s) ↦ let e = Same-ordinal a b s in absurd (omega arith)
      | inr (inr g) ↦ let k = Lesser-ordinal b a vb va g in absurd (omega arith)
    ]
