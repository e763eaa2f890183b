-- ===== src/Calendar/Weekday.antt =====
-- The weekday of a date.
use upanix_os.Base.{ℕ, ◌+◌, ◌%◌, ◌≡◌, ap, ◌∙◌, true, arith, if_cases, some}
use upanix_os.Base.Int.{sub_ℕ}
use upanix_os.Calendar.{MDate, is_equal, seed_date, set_day_of_week, friday, weekday}
use upanix_os.Calendar.Ordinal.{ordinal, IsValid, is_valid-IsValid, seed_ordinal, seed-IsDate}
use upanix_os.Calendar.Order.{Same-ordinal, is_equal-Same}
use upanix_os.Calendar.Difference.{date_difference_lem}

-- On a valid date `mdate_SetDayOfWeek` answers true and sets the weekday, from 0 for Monday, by the number of the
-- date modulo 7, counted such that 15 August 1947 is a Friday; it changes nothing else.
pub set_day_of_week_lem :
    (date : MDate)
    → IsValid date
    → set_day_of_week date ≡ some (record date { day_of_week = (ordinal date + 3) % 7 }, true)
unfolding set_day_of_week
set_day_of_week_lem date v =
    let e = (is_valid-IsValid date).1 v in
    rw e (
      if_cases (λ r. r ≡ some (record date { day_of_week = (ordinal date + 3) % 7 }, true))
        (is_equal date seed_date) _ _
        (λ s.
          let n = Same-ordinal date seed_date ((is_equal-Same date seed_date).0 s) ∙ seed_ordinal in
          let w : friday ≡ (ordinal date + 3) % 7 = omega arith in
          ap (λ w. some (record date { day_of_week = w }, true)) w)
        (λ _. rw (date_difference_lem date seed_date v.0 seed-IsDate) (
          ap (λ w. some (record date { day_of_week = w }, true))
            (week (ordinal date) (ordinal seed_date) seed_ordinal))))
  where
    week : (n s : ℕ) → s ≡ 711369 → weekday (sub_ℕ n s) ≡ (n + 3) % 7
    week n s e = rw e (ground arith)
