-- ===== src/Calendar/Add.antt =====
-- Adding days, weeks, months and years to a date.
use upanix_os.Base.{
  ℕ, zero, suc, ◌+◌, ◌-◌, ◌*◌, ◌^◌, ◌/◌, ◌%◌, ◌≤◌, ◌<◌, min, ◌≡◌, refl, sym, ap, Bool, true, false,
  arith, ltb, ◌==◌, if◌then◌else◌, Bool-cases, inl, inr, if_cases, ltb→lt, ◌≢◌, get_or,
}
use upanix_os.Base.Int.{pos, ◌*ℤ◌, wrapped}
use upanix_os.Calendar.{
  MDate, get_days_in_month_1, no_of_days_in_month_ly, no_of_days_in_month_nly, is_leap_year,
  add_days_loop, with_date, add_days, add_weeks, add_months, add_years,
}
use upanix_os.Calendar.Ordinal.{
  year_start, month_start, at, ordinal, IsMonth, IsDate, IsValid, is_valid-IsValid,
  days_in_month_bounds, year_end, month_end, january,
}

-- A day of the calendar with a given number.
abbrev pub Reaches : ℕ → ℕ × ℕ × ℕ → Type 0
Reaches number (d, m, y) = IsDate d m y × (at d m y ≡ number)

-- Day 0 of the month after stands at the end of the month.
pub end_turn :
    (m y : ℕ)
    → IsMonth m
    → let m' = if ltb 12 (m + 1) then 1 else m + 1 in
      let y' = if ltb 12 (m + 1) then y + 1 else y in
      IsMonth m' × (at 0 m' y' ≡ at (get_days_in_month_1 m y) m y)
end_turn m y (lo, hi) = elim (Bool-cases (ltb 12 (m + 1))) [
  | inl e ↦
      let last : m ≡ 12 = ground arith in
      rw e (
        (omega arith, omega arith),
        omega (
          arith,
          january (y + 1),
          year_end y,
          ap year_start (next y),
          ap (month_start y) last,
          ap (λ (k : ℕ). get_days_in_month_1 k y) last,
        ),
      )
  | inr e ↦
      let small : m < 12 = ground arith in
      rw e ((omega arith, omega arith), omega (arith, month_end y m, ap (month_start y) (next m)))
]
  where
    next : (k : ℕ) → k + 1 ≡ suc k
    next k = omega arith

pub add_days_loop-Reaches :
    (fuel days d m y : ℕ)
    → IsMonth m
    → d ≤ get_days_in_month_1 m y
    → 0 < days
    → days + min d 1 + 1 ≤ fuel
    → Reaches (at d m y + days) (add_days_loop fuel days d m y)
unfolding add_days_loop
add_days_loop-Reaches zero days d m y im top some_days enough = absurd (omega arith)
add_days_loop-Reaches (suc fuel) days d m y im top some_days enough =
    let positive : ltb 0 days ≡ true = ground arith in
    let bounds = days_in_month_bounds m y im in
    rw positive (
      if_cases (Reaches (at d m y + days)) (ltb (get_days_in_month_1 m y) (d + days)) _ _
        (λ e.
          let over = ltb→lt (get_days_in_month_1 m y) (d + days) e in
          let turn = end_turn m y im in
          let same : at 0 (if ltb 12 (m + 1) then 1 else m + 1)
                  (if ltb 12 (m + 1) then y + 1 else y)
                + (days - (get_days_in_month_1 m y - d))
              ≡ at d m y + days =
            omega (arith, turn.1) in
          rw same at (
            add_days_loop-Reaches fuel (days - (get_days_in_month_1 m y - d)) 0
              (if ltb 12 (m + 1) then 1 else m + 1) (if ltb 12 (m + 1) then y + 1 else y) turn.0
              (omega arith) (omega arith) (omega arith)))
        (λ e.
          let fits : d + days ≤ get_days_in_month_1 m y = ground arith in
          ((im, omega arith, fits), omega arith)))

-- A result of an operation on `date` that succeeds with a day of the calendar numbered `number`.
abbrev pub Succeeds : MDate → ℕ → MDate × Bool → Type 0
Succeeds date number (after, b) =
    (b ≡ true)
    × IsDate after.day_of_month after.month after.year
    × (ordinal after ≡ number)
    × (after.day_of_week ≡ date.day_of_week)

-- On a valid date `mdate_AddDays` ends, for each number of days that is not negative, answers true and
-- leaves the day of the calendar that comes so many days later; the weekday stays what it was.
pub add_days-Succeeds :
    (date : MDate) (n : ℕ) → IsValid date → Succeeds date (ordinal date + n) (add_days date (pos n))
unfolding add_days
add_days-Succeeds date zero v =
    let e = (is_valid-IsValid date).1 v in rw e (refl, v.0, omega arith, refl)
add_days-Succeeds date (suc n) v =
    let e = (is_valid-IsValid date).1 v in
    let date_is = v.0 in
    rw e (
      reached (add_days_loop (suc n + 2) (suc n) date.day_of_month date.month date.year) (
        add_days_loop-Reaches (suc n + 2) (suc n) date.day_of_month date.month date.year date_is.0
          date_is.2 (omega arith) (omega arith)))
  where
    reached :
        (r : ℕ × ℕ × ℕ)
        → Reaches (ordinal date + suc n) r
        → Succeeds date (ordinal date + suc n) (with_date date r, true)
    reached (d, m, y) (is, e) = (refl, is, e, refl)

-- `mdate_AddWeeks` is `mdate_AddDays` for seven days a week.
pub weeks_times : (n : ℕ) → n * 7 < 2 ^ 31 → wrapped (pos n *ℤ pos 7) ≡ pos (n * 7)
unfolding ◌*ℤ◌ wrapped
weeks_times n h = let small : n * 7 % 2 ^ 32 ≡ n * 7 = omega (arith, h) in ground (arith, small, h)

-- On a valid date `mdate_AddWeeks` answers true and leaves the day of the calendar that comes seven
-- times as many days later, for each number of weeks that is not negative and whose days an int holds.
pub add_weeks-Succeeds :
    (date : MDate) (n : ℕ)
    → IsValid date
    → n * 7 < 2 ^ 31
    → Succeeds date (ordinal date + n * 7) (add_weeks date (pos n))
unfolding add_weeks
add_weeks-Succeeds date n v h = rw (weeks_times n h) (add_days-Succeeds date (n * 7) v)

-- The day of a month that is no later than its last.
abbrev pub clamp : ℕ → ℕ → ℕ → ℕ
clamp d m y = min d (get_days_in_month_1 m y)

abbrev pub month_number : MDate → ℕ
month_number date = date.year * 12 + (date.month - 1)

-- A date of another month: the day stays, or becomes the last of the month.
abbrev pub InMonth : MDate → ℕ → MDate → Type 0
InMonth date number after =
    IsDate after.day_of_month after.month after.year
    × (month_number after ≡ number)
    × (after.day_of_month ≡ clamp date.day_of_month after.month after.year)
    × (after.day_of_week ≡ date.day_of_week)

clamped : (d k : ℕ) → (if ltb k d then k else d) ≡ min d k
clamped d k = ground arith

-- On a valid date `mdate_AddMonths` answers true and leaves a day of the month that comes so many months later:
-- the same day of the month, or the last one if the month is shorter.
pub add_months-InMonth :
    (date : MDate) (n : ℕ)
    → IsValid date
    → ((add_months date (pos n)).1 ≡ true)
      × InMonth date (month_number date + n) (add_months date (pos n)).0
unfolding add_months
add_months-InMonth date zero v =
    let e = (is_valid-IsValid date).1 v in
    rw e (refl, (v.0, omega arith, omega (arith, v.0.2), refl))
add_months-InMonth date (suc n) v =
    let e = (is_valid-IsValid date).1 v in
    let m = (date.month + suc n - 1) % 12 + 1 in
    let y = date.year + (date.month + suc n - 1) / 12 in
    let bounds = days_in_month_bounds m y (omega arith, omega arith) in
    rw (e, clamped date.day_of_month (get_days_in_month_1 m y))
      (
        refl,
        (
          ((omega arith, omega arith), omega (arith, v.0.1), omega arith),
          omega (arith, v.0.0.0),
          refl,
          refl,
        ),
      )

-- Only February's length depends on the year.
nly_ly : (m : ℕ) → m ≢ 2 → get_or no_of_days_in_month_ly m 0 ≡ get_or no_of_days_in_month_nly m 0
nly_ly zero h = refl
nly_ly (suc zero) h = refl
nly_ly (suc (suc zero)) h = absurd (h refl)
nly_ly (suc (suc (suc m))) h = refl

not_february : (m y z : ℕ) → m ≢ 2 → get_days_in_month_1 m y ≡ get_days_in_month_1 m z
unfolding get_days_in_month_1
not_february m y z h = elim (Bool-cases (is_leap_year y)) [
  | inl e ↦ elim (Bool-cases (is_leap_year z)) [
    | inl f ↦ rw (e, f) refl
    | inr f ↦ rw (e, f) (nly_ly m h)
  ]
  | inr e ↦ elim (Bool-cases (is_leap_year z)) [
    | inl f ↦ rw (e, f) (sym (nly_ly m h))
    | inr f ↦ rw (e, f) refl
  ]
]

-- The day that the two operations on years choose, though they clamp it in February alone.
pub year_clamp :
    (d m y z : ℕ)
    → d ≤ get_days_in_month_1 m y
    → (if m == 2
        then (if ltb (get_days_in_month_1 m z) d then get_days_in_month_1 m z else d)
        else d)
      ≡ clamp d m z
year_clamp d m y z h = elim (Bool-cases (m == 2)) [
  | inl e ↦ rw e (clamped d (get_days_in_month_1 m z))
  | inr e ↦ let same = not_february m y z (ne e) in rw e (omega arith)
]
  where
    ne : (m == 2) ≡ false → m ≢ 2
    ne e = ground arith

-- On a valid date `mdate_AddYears` answers true and leaves the same day of the same month so many years
-- later, or the last day of the month if that is shorter.
pub add_years-InMonth :
    (date : MDate) (n : ℕ)
    → IsValid date
    → ((add_years date (pos n)).1 ≡ true)
      × InMonth date (month_number date + n * 12) (add_years date (pos n)).0
unfolding add_years
add_years-InMonth date zero v =
    let e = (is_valid-IsValid date).1 v in
    rw e (refl, (v.0, omega arith, omega (arith, v.0.2), refl))
add_years-InMonth date (suc n) v =
    let e = (is_valid-IsValid date).1 v in
    let y = date.year + suc n in
    let bounds = days_in_month_bounds date.month y v.0.0 in
    rw (e, year_clamp date.day_of_month date.month date.year y v.0.2)
      (refl, ((v.0.0, omega (arith, v.0.1), omega arith), omega arith, refl, refl))
