-- ===== src/Calendar/Tests.antt =====
-- Dates at concrete inputs.
use mathlib.Core.Path.{subst, sym}
use upanix_os.Base.{ℕ, ◌+◌, ◌-◌, ◌*◌, ◌%◌, ◌<◌, ◌≡◌, refl, ◌↔◌, true, not, some, arith}
use upanix_os.Base.Int.{pos, sub_ℕ}
use upanix_os.Calendar.{
  MDate, answers, beyond_table, is_valid, is_lesser, is_greater, is_equal, is_not_equal, add_days,
  add_years, subtract_days, subtract_months, date_difference, set_day_of_week, get_days_in_month_1,
  add_days_loop,
}
use upanix_os.Calendar.Ordinal.{IsValid, ordinal, year_start_closed}
use upanix_os.Calendar.Order.{comparisons_of_ordinal}
use upanix_os.Calendar.Add.{Succeeds, month_number, add_days-Succeeds}
use upanix_os.Calendar.Subtract.{
  Succeeds?, subtract_days-Succeeds, subtract_months-beyond_table, subtract_months_late,
}
use upanix_os.Calendar.Difference.{date_difference_lem}
use upanix_os.Calendar.Weekday.{set_day_of_week_lem}

abbrev leap_day : MDate
leap_day = record { day_of_month = 29; month = 2; year = 2024; day_of_week = 0 }

abbrev january_end : MDate
january_end = record { day_of_month = 31; month = 1; year = 2024; day_of_week = 2 }

leap_day-IsValid : IsValid leap_day
unfolding get_days_in_month_1
leap_day-IsValid =
    (((omega arith, omega arith), omega arith, omega arith), omega arith, omega arith)

january_end-IsValid : IsValid january_end
unfolding get_days_in_month_1
january_end-IsValid =
    (((omega arith, omega arith), omega arith, omega arith), omega arith, omega arith)

to_leap_day :
    add_days january_end (pos 29) ≡ (record january_end { day_of_month = 29; month = 2 }, true)
unfolding add_days is_valid get_days_in_month_1 add_days_loop
to_leap_day = refl

leap_year_birthday :
    add_years leap_day (pos 1) ≡ (record leap_day { day_of_month = 28; year = 2025 }, true)
unfolding add_years is_valid get_days_in_month_1
leap_year_birthday = refl

comparisons_of_ordinal_example :
    ((is_lesser january_end leap_day ≡ true) ↔ (ordinal january_end < ordinal leap_day))
    × ((is_greater january_end leap_day ≡ true) ↔ (ordinal leap_day < ordinal january_end))
    × ((is_equal january_end leap_day ≡ true) ↔ (ordinal january_end ≡ ordinal leap_day))
    × (is_not_equal january_end leap_day ≡ not (is_equal january_end leap_day))
comparisons_of_ordinal_example =
    comparisons_of_ordinal january_end leap_day january_end-IsValid.0 leap_day-IsValid.0

add_days_example : Succeeds january_end (ordinal january_end + 29) (add_days january_end (pos 29))
add_days_example = add_days-Succeeds january_end 29 january_end-IsValid

many_days : (n : ℕ) → n < 2024 * 365 → n < ordinal leap_day
many_days n h = omega (arith, year_start_closed 2024)

subtract_days_example :
    Succeeds? leap_day (ordinal leap_day - 400) (subtract_days leap_day (pos 400))
subtract_days_example =
    subtract_days-Succeeds leap_day 400 leap_day-IsValid (many_days 400 (omega arith))

moved-IsValid : IsValid (record january_end { day_of_month = 29; month = 2 })
moved-IsValid = (leap_day-IsValid.0, omega arith, omega arith)

added-IsValid : IsValid (add_days january_end (pos 29)).0
added-IsValid = subst (λ r. IsValid r.0) (sym to_leap_day) moved-IsValid

march_end-IsValid : IsValid (record january_end { month = 3 })
unfolding get_days_in_month_1
march_end-IsValid =
    (((omega arith, omega arith), omega arith, omega arith), omega arith, omega arith)

-- March and 13 months: a month of 14.
subtract_months-beyond_table_example :
    subtract_months (record january_end { month = 3 }) (pos 13) ≡ beyond_table
subtract_months-beyond_table_example =
    subtract_months-beyond_table (record january_end { month = 3 }) 13 march_end-IsValid
      (omega arith) (omega arith)

-- January and 13 months: a year and a month before, plus a year.
subtract_months_late_example :
    (after : MDate) × (subtract_months january_end (pos 13) ≡ answers after true)
    × (month_number after + 13 ≡ month_number january_end + 12)
subtract_months_late_example =
    subtract_months_late january_end 13 january_end-IsValid (omega arith) (omega arith)
      (omega arith)

date_difference_example :
    date_difference january_end leap_day ≡ some (sub_ℕ (ordinal january_end) (ordinal leap_day))
date_difference_example =
    date_difference_lem january_end leap_day january_end-IsValid.0 leap_day-IsValid.0

set_day_of_week_example :
    set_day_of_week leap_day
    ≡ some (record leap_day { day_of_week = (ordinal leap_day + 3) % 7 }, true)
set_day_of_week_example = set_day_of_week_lem leap_day leap_day-IsValid
