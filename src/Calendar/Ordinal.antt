-- ===== src/Calendar/Ordinal.antt =====
-- The number of a date: the days of the years, the months and the month so far, with a leap year in
-- each four. The operations on dates are described by it.
use upanix_os.Base.{
  ℕ, zero, suc, ◌+◌, ◌*◌, ◌/◌, ◌≤◌, ◌<◌, ◌≡◌, refl, true, arith, if◌then◌else◌, get_or, Bool-cases,
  inl, inr, ◌↔◌,
}
use upanix_os.Calendar.{
  MDate, get_days_in_month_1, is_leap_year, is_valid, no_of_days_in_month_ly,
  no_of_days_in_month_nly, seed_date,
}

-- The days of the years before year `y`.
pub year_start : ℕ → ℕ
year_start zero = 0
year_start (suc y) = year_start y + (if is_leap_year y then 366 else 365)

-- The days of year `y` before its month `m`.
pub month_start : ℕ → ℕ → ℕ
month_start y zero = 0
month_start y (suc m) = month_start y m + get_days_in_month_1 m y

abbrev pub at : ℕ → ℕ → ℕ → ℕ
at d m y = year_start y + month_start y m + d

abbrev pub ordinal : MDate → ℕ
ordinal date = at date.day_of_month date.month date.year

abbrev pub IsMonth : ℕ → Type 0
IsMonth m = (1 ≤ m) × (m ≤ 12)

-- A day of the calendar, in any year.
abbrev pub IsDate : ℕ → ℕ → ℕ → Type 0
IsDate d m y = IsMonth m × (1 ≤ d) × (d ≤ get_days_in_month_1 m y)

abbrev pub IsValid : MDate → Type 0
IsValid date = IsDate date.day_of_month date.month date.year × (0 < date.year) × (date.year < 10000)

-- `mdate_IsValid` decides it.
pub is_valid-IsValid : (date : MDate) → (is_valid date ≡ true) ↔ IsValid date
unfolding is_valid
is_valid-IsValid date = ground arith

ly_bounds :
    (m : ℕ)
    → IsMonth m
    → (28 ≤ get_or no_of_days_in_month_ly m 0) × (get_or no_of_days_in_month_ly m 0 ≤ 31)
ly_bounds zero h = absurd (omega arith)
ly_bounds (suc zero) h = (omega arith, omega arith)
ly_bounds (suc (suc zero)) h = (omega arith, omega arith)
ly_bounds (suc (suc (suc zero))) h = (omega arith, omega arith)
ly_bounds (suc (suc (suc (suc zero)))) h = (omega arith, omega arith)
ly_bounds (suc (suc (suc (suc (suc zero))))) h = (omega arith, omega arith)
ly_bounds (suc (suc (suc (suc (suc (suc zero)))))) h = (omega arith, omega arith)
ly_bounds (suc (suc (suc (suc (suc (suc (suc zero))))))) h = (omega arith, omega arith)
ly_bounds (suc (suc (suc (suc (suc (suc (suc (suc zero)))))))) h = (omega arith, omega arith)
ly_bounds (suc (suc (suc (suc (suc (suc (suc (suc (suc zero))))))))) h = (omega arith, omega arith)
ly_bounds (suc (suc (suc (suc (suc (suc (suc (suc (suc (suc zero)))))))))) h =
    (omega arith, omega arith)
ly_bounds (suc (suc (suc (suc (suc (suc (suc (suc (suc (suc (suc zero))))))))))) h =
    (omega arith, omega arith)
ly_bounds (suc (suc (suc (suc (suc (suc (suc (suc (suc (suc (suc (suc zero)))))))))))) h =
    (omega arith, omega arith)
ly_bounds (suc (suc (suc (suc (suc (suc (suc (suc (suc (suc (suc (suc (suc m))))))))))))) h =
    absurd (omega arith)

nly_bounds :
    (m : ℕ)
    → IsMonth m
    → (28 ≤ get_or no_of_days_in_month_nly m 0) × (get_or no_of_days_in_month_nly m 0 ≤ 31)
nly_bounds zero h = absurd (omega arith)
nly_bounds (suc zero) h = (omega arith, omega arith)
nly_bounds (suc (suc zero)) h = (omega arith, omega arith)
nly_bounds (suc (suc (suc zero))) h = (omega arith, omega arith)
nly_bounds (suc (suc (suc (suc zero)))) h = (omega arith, omega arith)
nly_bounds (suc (suc (suc (suc (suc zero))))) h = (omega arith, omega arith)
nly_bounds (suc (suc (suc (suc (suc (suc zero)))))) h = (omega arith, omega arith)
nly_bounds (suc (suc (suc (suc (suc (suc (suc zero))))))) h = (omega arith, omega arith)
nly_bounds (suc (suc (suc (suc (suc (suc (suc (suc zero)))))))) h = (omega arith, omega arith)
nly_bounds (suc (suc (suc (suc (suc (suc (suc (suc (suc zero))))))))) h = (omega arith, omega arith)
nly_bounds (suc (suc (suc (suc (suc (suc (suc (suc (suc (suc zero)))))))))) h =
    (omega arith, omega arith)
nly_bounds (suc (suc (suc (suc (suc (suc (suc (suc (suc (suc (suc zero))))))))))) h =
    (omega arith, omega arith)
nly_bounds (suc (suc (suc (suc (suc (suc (suc (suc (suc (suc (suc (suc zero)))))))))))) h =
    (omega arith, omega arith)
nly_bounds (suc (suc (suc (suc (suc (suc (suc (suc (suc (suc (suc (suc (suc m))))))))))))) h =
    absurd (omega arith)

pub days_in_month_bounds :
    (m y : ℕ) → IsMonth m → (28 ≤ get_days_in_month_1 m y) × (get_days_in_month_1 m y ≤ 31)
unfolding get_days_in_month_1
days_in_month_bounds m y h = elim (Bool-cases (is_leap_year y)) [
  | inl e ↦ rw e (ly_bounds m h)
  | inr e ↦ rw e (nly_bounds m h)
]

-- The year after starts where December ends.
pub year_end :
    (y : ℕ) → year_start y + month_start y 12 + get_days_in_month_1 12 y ≡ year_start (suc y)
unfolding year_start month_start get_days_in_month_1
year_end y = elim (Bool-cases (is_leap_year y)) [
  | inl e ↦ rw e (omega arith)
  | inr e ↦ rw e (omega arith)
]

pub january : (y : ℕ) → month_start y 1 ≡ 0
unfolding month_start get_days_in_month_1
january y = elim (Bool-cases (is_leap_year y)) [ inl e ↦ rw e refl | inr e ↦ rw e refl ]

pub month_end : (y m : ℕ) → month_start y (suc m) ≡ month_start y m + get_days_in_month_1 m y
unfolding month_start
month_end y m = refl

pub year_start-suc :
    (y : ℕ) → year_start (suc y) ≡ year_start y + (if is_leap_year y then 366 else 365)
unfolding year_start
year_start-suc y = refl

-- The years before, in closed form.
pub year_start_closed : (y : ℕ) → year_start y ≡ 365 * y + (y + 3) / 4
unfolding year_start
year_start_closed zero = omega arith
year_start_closed (suc y) = ground (arith, year_start_closed y)

-- 15 August 1947.
pub seed_ordinal : ordinal seed_date ≡ 711369
unfolding month_start get_days_in_month_1
seed_ordinal = omega (arith, year_start_closed 1947)

pub seed-IsDate : IsDate 15 8 1947
unfolding get_days_in_month_1
seed-IsDate = ((omega arith, omega arith), omega arith, omega arith)
