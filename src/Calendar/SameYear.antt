-- ===== src/Calendar/SameYear.antt =====
-- The difference of two dates of one year.
use upanix_os.Base.{
  ℕ, zero, suc, ◌+◌, ◌-◌, ◌≤◌, ◌<◌, ◌≡◌, sym, ap, ◌∙◌, true, false, arith, ltb, ◌==◌, Bool-cases,
  inl, inr, ==_iff, ◌⊎◌, ◌≢◌, some,
}
use upanix_os.Base.Int.{pos, sub_ℕ}
use upanix_os.Calendar.{
  MDate, get_days_in_month, sum_months, sum_years, same_year_date_difference, is_equal,
}
use upanix_os.Calendar.Ordinal.{year_start, year_start-suc, month_start, ordinal, month_end}
use upanix_os.Calendar.Order.{Same-ordinal, Lesser-ordinal, IsDay, is_equal-Same}

pub sub_ℕ-le : (a b : ℕ) → b ≤ a → sub_ℕ a b ≡ pos (a - b)
sub_ℕ-le a b h = ground arith

sum_months_lem : (n m y : ℕ) → month_start y m + sum_months n m y ≡ month_start y (m + n)
unfolding sum_months
sum_months_lem zero m y = omega (arith, ap (month_start y) (none_more m))
  where
    none_more : (m : ℕ) → m + 0 ≡ m
    none_more m = omega arith
sum_months_lem (suc n) m y = omega (
  arith,
  sum_months_lem n (m + 1) y,
  month_end y m,
  ap (month_start y) (one_more m n),
  ap (month_start y) (next m),
)
  where
    one_more : (m n : ℕ) → m + suc n ≡ m + 1 + n
    one_more m n = omega arith

    next : (m : ℕ) → m + 1 ≡ suc m
    next m = omega arith

pub sum_years_lem : (n y : ℕ) → year_start y + sum_years n y ≡ year_start (y + n)
unfolding sum_years
sum_years_lem zero y = omega (arith, ap year_start (none_more y))
  where
    none_more : (m : ℕ) → m + 0 ≡ m
    none_more m = omega arith
sum_years_lem (suc n) y = omega (
  arith,
  sum_years_lem n (y + 1),
  year_start-suc y,
  ap year_start (one_more y n),
  ap year_start (next y),
)
  where
    one_more : (m n : ℕ) → m + suc n ≡ m + 1 + n
    one_more m n = omega arith

    next : (m : ℕ) → m + 1 ≡ suc m
    next m = omega arith

pub different : (a b : MDate) → ordinal a ≢ ordinal b → is_equal a b ≡ false
different a b ne = elim (Bool-cases (is_equal a b)) [
  | inl e ↦ absurd (ne (Same-ordinal a b ((is_equal-Same a b).0 e)))
  | inr e ↦ e
]

-- Two days of a year, in one month or in two.
pub one_month :
    (a b : MDate)
    → a.year ≡ b.year
    → b.month ≡ a.month
    → b.day_of_month ≤ a.day_of_month
    → same_year_date_difference a b ≡ some (pos (ordinal a - ordinal b))
unfolding same_year_date_difference
one_month a b y m d =
    let number : ordinal a - ordinal b ≡ a.day_of_month - b.day_of_month = omega (
      arith,
      ap year_start y,
      ap (λ (y : ℕ). month_start y a.month) y,
      ap (month_start b.year) m,
    ) in
    let year_same = (==_iff a.year b.year).1 y in
    let month_same = (==_iff a.month b.month).1 (sym m) in
    elim (Bool-cases (is_equal a b)) [
      | inl e ↦ let day = ((is_equal-Same a b).0 e).2 in rw e (ap (λ n. some (pos n)) (omega arith))
      | inr e ↦
          rw (e, year_same, month_same)
            (ap some (sub_ℕ-le a.day_of_month b.day_of_month d ∙ ap pos (sym number)))
    ]

pub two_months :
    (a b : MDate)
    → IsDay a
    → IsDay b
    → a.year ≡ b.year
    → b.month < a.month
    → same_year_date_difference a b ≡ some (pos (ordinal a - ordinal b))
unfolding same_year_date_difference
two_months a b va vb y h =
    let apart : is_equal a b ≡ false =
      different a b (λ e. absurd (omega (arith, Lesser-ordinal b a vb va (inr (sym y, inl h))))) in
    let year_same = (==_iff a.year b.year).1 y in
    let month_apart : (a.month == b.month) ≡ false = ground arith in
    let later : ltb b.month a.month ≡ true = ground arith in
    let months : b.month + 1 + (a.month - (b.month + 1)) ≡ a.month = omega arith in
    let next : b.month + 1 ≡ suc b.month = omega arith in
    rw (apart, year_same, month_apart, later)
      (ap some (
        sub_ℕ-le
          (get_days_in_month b
            + sum_months (a.month - (b.month + 1)) (b.month + 1) b.year
            + a.day_of_month)
          b.day_of_month (omega (arith, vb.2))
        ∙ ap pos (
            omega (
              arith,
              vb.2,
              ap year_start y,
              ap (λ (y : ℕ). month_start y a.month) y,
              sum_months_lem (a.month - (b.month + 1)) (b.month + 1) b.year,
              ap (month_start b.year) months,
              ap (month_start b.year) next,
              month_end b.year b.month,
            ))))

pub one_or_two :
    (a b : MDate)
    → IsDay a
    → IsDay b
    → a.year ≡ b.year
    → (b.month < a.month) ⊎ ((b.month ≡ a.month) × (b.day_of_month ≤ a.day_of_month))
    → same_year_date_difference a b ≡ some (pos (ordinal a - ordinal b))
one_or_two a b va vb y (inl h) = two_months a b va vb y h
one_or_two a b va vb y (inr (m, d)) = one_month a b y m d
