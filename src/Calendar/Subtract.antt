-- ===== src/Calendar/Subtract.antt =====
-- Subtracting days, weeks, months and years from a date.
use upanix_os.Base.{
  ℕ, zero, suc, ◌+◌, ◌-◌, ◌*◌, ◌^◌, ◌/◌, ◌%◌, ◌≤◌, ◌<◌, ◌≡◌, refl, ap, ◌∙◌, Bool, true, false,
  arith, ltb, leb, ◌==◌, if◌then◌else◌, Bool-cases, inl, inr, if_cases, leb→le, Option, none, some,
  ◌&&◌,
}
use upanix_os.Base.Int.{pos}
use upanix_os.Calendar.{
  MDate, answers, beyond_table, get_days_in_month_1, subtract_days_loop, with_date?, subtract_days,
  subtract_weeks, subtract_months, subtract_years, add_days,
}
use upanix_os.Calendar.Ordinal.{
  year_start, month_start, at, ordinal, IsMonth, IsDate, IsValid, is_valid-IsValid,
  days_in_month_bounds, year_end, month_end, january, year_start_closed,
}
use upanix_os.Calendar.Order.{Same, ordinal-Same}
use upanix_os.Calendar.Add.{
  Reaches, Succeeds, InMonth, month_number, year_clamp, weeks_times, add_days-Succeeds,
}

-- The same of a result that may be missing.
abbrev pub Reaches? : ℕ → Option (ℕ × ℕ × ℕ) → Type 0
Reaches? number none = ⊥
Reaches? number (some r) = Reaches number r

abbrev pub Succeeds? : MDate → ℕ → Option (MDate × Bool) → Type 0
Succeeds? date number none = ⊥
Succeeds? date number (some r) = Succeeds date number r

-- The last day of the month before stands where the month starts.
start_turn :
    (m y : ℕ)
    → IsMonth m
    → 0 < at 0 m y
    → let m' = if ltb (m - 1) 1 then 12 else m - 1 in
      let y' = if ltb (m - 1) 1 then y - 1 else y in
      IsMonth m'
      × (at (get_days_in_month_1 m' y') m' y' ≡ at 0 m y)
      × ((ltb (m - 1) 1 && (y == 0)) ≡ false)
start_turn m y (lo, hi) some_before = elim (Bool-cases (ltb (m - 1) 1)) [
  | inl e ↦
      let first : m ≡ 1 = ground arith in
      let start = ap (month_start y) first in
      let j = january y in
      let later : 0 < y = omega (arith, year_start_closed y) in
      let next : suc (y - 1) ≡ y = omega arith in
      let zeroth : (y == 0) ≡ false = ground arith in
      rw e ((omega arith, omega arith), omega (arith, year_end (y - 1), ap year_start next), zeroth)
  | inr e ↦
      let next : suc (m - 1) ≡ m = ground arith in
      let some_month : 1 ≤ m - 1 = ground arith in
      rw e (
        (omega arith, omega arith),
        omega (arith, month_end y (m - 1), ap (month_start y) next),
        refl,
      )
]

subtract_days_loop-Reaches :
    (fuel days d m y : ℕ)
    → IsDate d m y
    → days < at d m y
    → days < fuel
    → Reaches? (at d m y - days) (subtract_days_loop fuel days d m y)
unfolding subtract_days_loop
subtract_days_loop-Reaches zero days d m y is in_range enough = absurd (omega arith)
subtract_days_loop-Reaches (suc fuel) zero d m y is in_range enough = (is, omega arith)
subtract_days_loop-Reaches (suc fuel) (suc days) d m y (im, one, top) in_range enough =
    let m' = if ltb (m - 1) 1 then 12 else m - 1 in
    let y' = if ltb (m - 1) 1 then y - 1 else y in
    let positive : ltb 0 (suc days) ≡ true = ground arith in
    rw positive (
      if_cases (Reaches? (at d m y - suc days)) (leb d (suc days)) _ _
        (λ e.
          let all = leb→le d (suc days) e in
          let back = start_turn m y im (omega arith) in
          let bounds = days_in_month_bounds m' y' back.0 in
          let same : at (get_days_in_month_1 m' y') m' y' - (suc days - d) ≡ at d m y - suc days =
            omega (arith, back.1) in
          rw (back.2) (
            rw same at (
              subtract_days_loop-Reaches fuel (suc days - d) (get_days_in_month_1 m' y') m' y'
                (back.0, omega arith, omega arith) (omega (arith, back.1)) (omega arith))))
        (λ e.
          let fewer : suc days < d = ground arith in ((im, omega arith, omega arith), omega arith)))

-- On a valid date `mdate_SubtractDays` ends for each number of days, not negative, by which the year does not become
-- negative, answers true and leaves the day of the calendar that comes so many days before; the weekday
-- stays what it was.
pub subtract_days-Succeeds :
    (date : MDate) (n : ℕ)
    → IsValid date
    → n < ordinal date
    → Succeeds? date (ordinal date - n) (subtract_days date (pos n))
unfolding subtract_days
subtract_days-Succeeds date zero v h =
    let e = (is_valid-IsValid date).1 v in rw e (refl, v.0, omega arith, refl)
subtract_days-Succeeds date (suc n) v h =
    let e = (is_valid-IsValid date).1 v in
    rw e (
      reached (subtract_days_loop (suc n + 1) (suc n) date.day_of_month date.month date.year) (
        subtract_days_loop-Reaches (suc n + 1) (suc n) date.day_of_month date.month date.year v.0 h
          (omega arith)))
  where
    reached :
        (r : Option (ℕ × ℕ × ℕ))
        → Reaches? (ordinal date - suc n) r
        → Succeeds? date (ordinal date - suc n) (with_date? date r)
    reached none f = f
    reached (some (d, m, y)) (is, e) = (refl, is, e, refl)

-- On a valid date `mdate_SubtractWeeks` answers true and leaves the day of the calendar that comes
-- seven times as many days before, if the year does not become negative by that.
pub subtract_weeks-Succeeds :
    (date : MDate) (n : ℕ)
    → IsValid date
    → n * 7 < ordinal date
    → n * 7 < 2 ^ 31
    → Succeeds? date (ordinal date - n * 7) (subtract_weeks date (pos n))
unfolding subtract_weeks
subtract_weeks-Succeeds date n v h small =
    rw (weeks_times n small) (subtract_days-Succeeds date (n * 7) v h)

date_path : (a b : MDate) → Same a b → a.day_of_week ≡ b.day_of_week → a ≡ b
date_path a b (y, m, d) w =
    λ i. record { day_of_month = d i; month = m i; year = y i; day_of_week = w i }

-- Subtracting the days that were added leads back to the date, if the date between is valid too.
pub subtract_days-add_days :
    (date : MDate) (n : ℕ)
    → IsValid date
    → IsValid (add_days date (pos n)).0
    → subtract_days (add_days date (pos n)).0 (pos n) ≡ some (date, true)
subtract_days-add_days date n v w =
    back (subtract_days (add_days date (pos n)).0 (pos n))
      (subtract_days-Succeeds (add_days date (pos n)).0 n w (omega (arith, added.2, v.0.1)))
  where
    added : Succeeds date (ordinal date + n) (add_days date (pos n))
    added = add_days-Succeeds date n v

    back :
        (r : Option (MDate × Bool))
        → Succeeds? (add_days date (pos n)).0 (ordinal (add_days date (pos n)).0 - n) r
        → r ≡ some (date, true)
    back none f = absurd f
    back (some (after, b)) (yes_, is, number, weekday) =
        let same = ordinal-Same after date is v.0 (omega (arith, number, added.2)) in
        λ i. some (date_path after date same (weekday ∙ added.3) i, yes_ i)

-- On a valid date `mdate_SubtractYears` answers false and changes nothing when the year would be 0 or less; else it answers
-- true and leaves the same day of the same month so many years before, or the last day of the month if that is shorter.
pub subtract_years_lem :
    (date : MDate) (n : ℕ)
    → IsValid date
    → (date.year ≤ n → subtract_years date (pos n) ≡ (date, false))
      × (n < date.year
          → ((subtract_years date (pos n)).1 ≡ true)
            × InMonth date (month_number date - n * 12) (subtract_years date (pos n)).0)
unfolding subtract_years
subtract_years_lem date zero v =
    let e = (is_valid-IsValid date).1 v in
    rw e (
      (λ h. absurd (omega (arith, v.1))),
      λ h. (refl, (v.0, omega arith, omega (arith, v.0.2), refl)),
    )
subtract_years_lem date (suc n) v =
    let e = (is_valid-IsValid date).1 v in
    let y = date.year - suc n in
    let bounds = days_in_month_bounds date.month y v.0.0 in
    rw e (
      (λ h. let low : leb date.year (suc n) ≡ true = ground arith in rw low refl),
      λ h.
          let high : leb date.year (suc n) ≡ false = ground arith in
          rw (high, year_clamp date.day_of_month date.month date.year y v.0.2)
            (refl, ((v.0.0, omega (arith, v.0.1), omega arith), omega arith, refl, refl)),
    )

-- `mdate_SubtractMonths` on a valid date: for every number of months that is not 0 and of which the part below a
-- year is less than the month of the date, it reads beyond its tables of days.
pub subtract_months-beyond_table :
    (date : MDate) (n : ℕ)
    → IsValid date
    → 0 < n
    → n % 12 < date.month
    → subtract_months date (pos n) ≡ beyond_table
unfolding subtract_months
subtract_months-beyond_table date zero v some_months low = absurd (omega arith)
subtract_months-beyond_table date (suc n) v some_months low =
    let e = (is_valid-IsValid date).1 v in
    let sum = 12 - suc n % 12 + date.month in
    let not_zero : (sum == 0) ≡ false = ground arith in
    let over : ltb 12 sum ≡ true = ground arith in rw (e, not_zero, over) refl

-- `mdate_SubtractMonths` on a valid date, for a number of months of which the part below a year is no less than
-- the month, and twice that part is less than the month and twelve: if the years of the months are no more than
-- the year, it answers true and leaves a date twelve months too late.
pub subtract_months_late :
    (date : MDate) (n : ℕ)
    → IsValid date
    → date.month ≤ n % 12
    → n % 12 * 2 < date.month + 12
    → n / 12 ≤ date.year
    → (after : MDate) × (subtract_months date (pos n) ≡ answers after true)
      × (month_number after + n ≡ month_number date + 12)
unfolding subtract_months
subtract_months_late date zero v high twice h = absurd (omega (arith, v.0.0.0, high))
subtract_months_late date (suc n) v high twice h =
    let e = (is_valid-IsValid date).1 v in
    let some_month = v.0.0.0 in
    let sum = 12 - suc n % 12 + date.month in
    let not_zero : (sum == 0) ≡ false = ground arith in
    let fits : ltb 12 sum ≡ false = ground arith in
    let late : ltb sum (suc n % 12 + 1) ≡ false = ground arith in
    let in_range : ltb date.year (suc n / 12 + 0) ≡ false = ground arith in
    rw (e, not_zero, late, fits, in_range) (_, refl, omega arith)
