-- ===== src/Calendar.antt =====
-- The dates of libmcpp/cal/mdate.cpp and mdate.h. The fields of a date are numbers: a negative field
-- makes a date invalid, as 0 does. The days, weeks, months and years that the operations take are integers.
-- Sums of `int` do not overflow here.
pub mod Ordinal
pub mod Order
pub mod Add
pub mod Subtract
mod SameYear
pub mod Difference
pub mod Weekday
mod Tests
use upanix_os.Base.{
  ℕ, zero, suc, ◌+◌, ◌-◌, ◌*◌, ◌/◌, ◌%◌, Bool, true, false, List, [], ◌∷◌, Option, none, some, ltb,
  leb, ◌==◌, if◌then◌else◌, get_or, ◌&&◌, ◌||◌, not,
}
use upanix_os.Base.Int.{ℤ, pos, negsuc, sub_ℕ, ◌+ℤ◌, ◌*ℤ◌, wrapped}

pub record MDate : Type 0 where
  pub day_of_month : ℕ
  pub month : ℕ
  pub year : ℕ
  pub day_of_week : ℕ

abbrev pub months_per_year : ℕ
months_per_year = 12

abbrev pub days_per_week : ℕ
days_per_week = 7

abbrev pub friday : ℕ
friday = 4

abbrev pub seed_date : MDate
seed_date = record { day_of_month = 15; month = 8; year = 1947; day_of_week = friday }

abbrev pub no_of_days_in_month_nly : List ℕ
no_of_days_in_month_nly = 0 ∷ 31 ∷ 28 ∷ 31 ∷ 30 ∷ 31 ∷ 30 ∷ 31 ∷ 31 ∷ 30 ∷ 31 ∷ 30 ∷ 31 ∷ []

abbrev pub no_of_days_in_month_ly : List ℕ
no_of_days_in_month_ly = 0 ∷ 31 ∷ 29 ∷ 31 ∷ 30 ∷ 31 ∷ 30 ∷ 31 ∷ 31 ∷ 30 ∷ 31 ∷ 30 ∷ 31 ∷ []

-- `IS_LEAP_YEAR`
abbrev pub is_leap_year : ℕ → Bool
is_leap_year year = year % 4 == 0

-- `mdate_GetDaysInMonth_1`. The tables end at December: what calls it with a larger month says so.
pub get_days_in_month_1 : ℕ → ℕ → ℕ
get_days_in_month_1 month year =
    if is_leap_year year
    then get_or no_of_days_in_month_ly month 0
    else get_or no_of_days_in_month_nly month 0

abbrev pub get_days_in_month : MDate → ℕ
get_days_in_month date = get_days_in_month_1 date.month date.year

abbrev pub is_valid_month : ℕ → Bool
is_valid_month month = leb 1 month && leb month 12

abbrev pub is_valid_year : ℕ → Bool
is_valid_year year = ltb 0 year && ltb year 10000

abbrev pub is_valid_day_of_month : MDate → Bool
is_valid_day_of_month date =
    if ltb date.day_of_month 1
    then false
    else if ltb (get_days_in_month date) date.day_of_month
    then false
    else true

pub is_valid : MDate → Bool
is_valid date =
    if is_valid_year date.year
    then if is_valid_month date.month
      then if is_valid_day_of_month date then true else false
      else false
    else false

pub mdate_set : MDate → ℕ → ℕ → ℕ → MDate × Bool
mdate_set date day month year =
    let date' = record date { day_of_month = day; month = month; year = year } in
    (date', is_valid date')

-- The loop of `mdate_AddDays`, over the locals `dayOfMonth`, `month` and `year`.
pub add_days_loop : ℕ → ℕ → ℕ → ℕ → ℕ → ℕ × ℕ × ℕ
add_days_loop zero days day month year = (day, month, year)
add_days_loop (suc fuel) days day month year =
    let days_in_month = get_days_in_month_1 month year in
    let left = days - (days_in_month - day) in
    let rest =
      add_days_loop fuel left 0 (if ltb 12 (month + 1) then 1 else month + 1)
        (if ltb 12 (month + 1) then year + 1 else year) in
    if ltb 0 days
    then if ltb days_in_month (day + days) then rest else (day + days, month, year)
    else (day, month, year)

abbrev pub with_date : MDate → ℕ × ℕ × ℕ → MDate
with_date date (day, month, year) = record date { day_of_month = day; month = month; year = year }

-- The guards that the operations begin with, for an operation on a positive number.
abbrev pub guarded : {R : Type 0} → (MDate → Bool → R) → (MDate → ℕ → R) → MDate → ℤ → R
guarded ret run date (pos zero) = if is_valid date then ret date true else ret date false
guarded ret run date (pos (suc n)) = if is_valid date then run date (suc n) else ret date false
guarded ret run date (negsuc n) = ret date false

abbrev pub ret : MDate → Bool → MDate × Bool
ret date b = (date, b)

-- `mdate_AddDays`: each round but the first takes 28 days or more.
abbrev pub run_add_days : MDate → ℕ → MDate × Bool
run_add_days date days =
    (with_date date (add_days_loop (days + 2) days date.day_of_month date.month date.year), true)

pub add_days : MDate → ℤ → MDate × Bool
add_days = guarded ret run_add_days

pub add_weeks : MDate → ℤ → MDate × Bool
add_weeks date weeks = add_days date (wrapped (weeks *ℤ pos days_per_week))

-- What `add_months` does past its guards.
abbrev pub run_add_months : MDate → ℕ → MDate × Bool
run_add_months date months =
    let year = date.year + (date.month + months - 1) / months_per_year in
    let month = (date.month + months - 1) % months_per_year + 1 in
    let days_in_month = get_days_in_month_1 month year in
    let day = if ltb days_in_month date.day_of_month then days_in_month else date.day_of_month in
    (with_date date (day, month, year), true)

pub add_months : MDate → ℤ → MDate × Bool
add_months = guarded ret run_add_months

-- What `add_years` does past its guards.
abbrev pub run_add_years : MDate → ℕ → MDate × Bool
run_add_years date years =
    let year = date.year + years in
    let days_in_month = get_days_in_month_1 date.month year in
    let day =
      if date.month == 2
      then if ltb days_in_month date.day_of_month then days_in_month else date.day_of_month
      else date.day_of_month in
    (with_date date (day, date.month, year), true)

pub add_years : MDate → ℤ → MDate × Bool
add_years = guarded ret run_add_years

-- The loop of `mdate_SubtractDays`; `none` where the year would become negative.
pub subtract_days_loop : ℕ → ℕ → ℕ → ℕ → ℕ → Option (ℕ × ℕ × ℕ)
subtract_days_loop zero days day month year = some (day, month, year)
subtract_days_loop (suc fuel) days day month year =
    let month' = if ltb (month - 1) 1 then 12 else month - 1 in
    let year' = if ltb (month - 1) 1 then year - 1 else year in
    let rest =
      subtract_days_loop fuel (days - day) (get_days_in_month_1 month' year') month' year' in
    if ltb 0 days
    then if leb day days
      then if ltb (month - 1) 1 && (year == 0) then none else rest
      else some (day - days, month, year)
    else some (day, month, year)

abbrev pub with_date? : MDate → Option (ℕ × ℕ × ℕ) → Option (MDate × Bool)
with_date? date none = none
with_date? date (some d) = some (with_date date d, true)

abbrev pub ret? : MDate → Bool → Option (MDate × Bool)
ret? date b = some (date, b)

-- `mdate_SubtractDays`: each round takes a day or more.
abbrev pub run_subtract_days : MDate → ℕ → Option (MDate × Bool)
run_subtract_days date days =
    with_date? date (subtract_days_loop (days + 1) days date.day_of_month date.month date.year)

pub subtract_days : MDate → ℤ → Option (MDate × Bool)
subtract_days = guarded ret? run_subtract_days

pub subtract_weeks : MDate → ℤ → Option (MDate × Bool)
subtract_weeks date weeks = subtract_days date (wrapped (weeks *ℤ pos days_per_week))

-- What `mdate_SubtractMonths` leads to: an answer; a read beyond the tables of days, which have 12 months;
-- or a date whose year is negative.
pub data MonthsAnswer : Type 0 where
  answers : MDate → Bool → MonthsAnswer
  beyond_table negative_year : MonthsAnswer

-- `mdate_SubtractMonths` past its guards
abbrev pub run_subtract_months : MDate → ℕ → MonthsAnswer
run_subtract_months date months =
    let nor_months = months % months_per_year in
    let sum = 12 - nor_months + date.month in
    let month = if sum == 0 then 12 else sum in
    let back = months / months_per_year + (if ltb month (nor_months + 1) then 1 else 0) in
    let year = date.year - back in
    let days_in_month = get_days_in_month_1 month year in
    let day = if ltb days_in_month date.day_of_month then days_in_month else date.day_of_month in
    if ltb 12 month
    then beyond_table
    else if ltb date.year back
    then negative_year
    else answers (with_date date (day, month, year)) true

pub subtract_months : MDate → ℤ → MonthsAnswer
subtract_months = guarded answers run_subtract_months

-- `mdate_SubtractYears`
abbrev pub run_subtract_years : MDate → ℕ → MDate × Bool
run_subtract_years date years =
    let year = date.year - years in
    let days_in_month = get_days_in_month_1 date.month year in
    let day =
      if date.month == 2
      then if ltb days_in_month date.day_of_month then days_in_month else date.day_of_month
      else date.day_of_month in
    if leb date.year years then (date, false) else (with_date date (day, date.month, year), true)

pub subtract_years : MDate → ℤ → MDate × Bool
subtract_years = guarded ret run_subtract_years

-- The comparisons: the year, then the month, then the day.
pub is_greater : MDate → MDate → Bool
is_greater a b =
    if ltb b.year a.year
    then true
    else if ltb a.year b.year
    then false
    else if ltb b.month a.month
    then true
    else if ltb a.month b.month
    then false
    else ltb b.day_of_month a.day_of_month

pub is_lesser : MDate → MDate → Bool
is_lesser a b =
    if ltb a.year b.year
    then true
    else if ltb b.year a.year
    then false
    else if ltb a.month b.month
    then true
    else if ltb b.month a.month
    then false
    else ltb a.day_of_month b.day_of_month

pub is_equal : MDate → MDate → Bool
is_equal a b = (a.year == b.year) && ((a.month == b.month) && (a.day_of_month == b.day_of_month))

pub is_not_equal : MDate → MDate → Bool
is_not_equal a b =
    not (a.year == b.year) || (not (a.month == b.month) || not (a.day_of_month == b.day_of_month))

-- for (m = from; m != from + n; m++) res += mdate_GetDaysInMonth_1(m, year)
pub sum_months : ℕ → ℕ → ℕ → ℕ
sum_months zero from year = 0
sum_months (suc n) from year = get_days_in_month_1 from year + sum_months n (from + 1) year

-- `mdate_SameYearDateDifference`; `none` where its loop passes the month of `a`. The sum is taken before
-- the one subtraction.
pub same_year_date_difference : MDate → MDate → Option ℤ
same_year_date_difference a b =
    if is_equal a b
    then some (pos 0)
    else if a.year == b.year
    then if a.month == b.month
      then some (sub_ℕ a.day_of_month b.day_of_month)
      else if ltb b.month a.month
      then some (
          sub_ℕ
            (get_days_in_month b
              + sum_months (a.month - (b.month + 1)) (b.month + 1) b.year
              + a.day_of_month)
            b.day_of_month)
      else none
    else some (negsuc 0)

-- for (y = from; y != from + n; y++) res += the days of year y
pub sum_years : ℕ → ℕ → ℕ
sum_years zero from = 0
sum_years (suc n) from = (if is_leap_year from then 366 else 365) + sum_years n (from + 1)

abbrev pub add_all : ℤ → Option ℤ → Option ℤ → Option ℤ
add_all res (some x) (some y) = some (res +ℤ x +ℤ y +ℤ pos 1)
add_all res _ _ = none

-- The difference of two dates of which the first is not the lesser.
pub difference_from : MDate → MDate → Option ℤ
difference_from date1 date2 =
    if date1.year == date2.year
    then if date1.month == date2.month
      then some (sub_ℕ date1.day_of_month date2.day_of_month)
      else same_year_date_difference date1 date2
    else add_all (pos (sum_years (date1.year - (date2.year + 1)) (date2.year + 1)))
        (same_year_date_difference (mdate_set date1 31 12 date2.year).0 date2)
        (same_year_date_difference date1 (mdate_set date1 1 1 date1.year).0)

-- res * switchSign
abbrev pub signed : ℤ → Option ℤ → Option ℤ
signed sign none = none
signed sign (some x) = some (x *ℤ sign)

-- `mdate_DateDifference`
pub date_difference : MDate → MDate → Option ℤ
date_difference a b =
    if is_equal a b
    then some (pos 0)
    else if is_lesser a b
    then signed (negsuc 0) (difference_from b a)
    else signed (pos 1) (difference_from a b)

-- The weekday, by the days from the seed date.
abbrev pub weekday : ℤ → ℕ
weekday (pos days) = (friday + days) % days_per_week
weekday (negsuc n) =
    let res = suc n % days_per_week in
    if leb res friday then friday - res else days_per_week - (res - friday)

abbrev pub with_weekday : MDate → Option ℤ → Option (MDate × Bool)
with_weekday date none = none
with_weekday date (some days) = some (record date { day_of_week = weekday days }, true)

-- `mdate_SetDayOfWeek`
pub set_day_of_week : MDate → Option (MDate × Bool)
set_day_of_week date =
    if is_valid date
    then if is_equal date seed_date
      then some (record date { day_of_week = friday }, true)
      else with_weekday date (date_difference date seed_date)
    else some (date, false)
