-- ===== src/Calendar/Difference.antt =====
-- The difference of two dates.
use upanix_os.Base.{
  ℕ, suc, ◌+◌, ◌-◌, ◌≤◌, ◌<◌, ◌≡◌, refl, sym, ap, ◌∙◌, false, arith, ltb, ◌==◌, Bool-cases, inl,
  inr, ltb→lt, ==_iff, some,
}
use upanix_os.Base.Int.{pos, negsuc, sub_ℕ, ◌*ℤ◌, ◌+ℤ◌}
use upanix_os.Calendar.{
  MDate, get_days_in_month_1, mdate_set, sum_years, same_year_date_difference, difference_from,
  date_difference, is_lesser, is_leap_year,
}
use upanix_os.Calendar.Ordinal.{year_start, month_start, at, ordinal, year_end, january}
use upanix_os.Calendar.Order.{
  Lesser, Same-ordinal, Lesser-ordinal, trichotomy, IsDay, at-le, is_equal-Same, is_lesser-Lesser,
}
use upanix_os.Calendar.SameYear.{sub_ℕ-le, sum_years_lem, two_months, one_or_two, different}

add_pos : (x y z : ℕ) → pos x +ℤ pos y +ℤ pos z +ℤ pos 1 ≡ pos (x + y + z + 1)
unfolding ◌+ℤ◌
add_pos x y z = ground arith

december : (y : ℕ) → get_days_in_month_1 12 y ≡ 31
unfolding get_days_in_month_1
december y = elim (Bool-cases (is_leap_year y)) [ inl e ↦ rw e refl | inr e ↦ rw e refl ]

first_month : (y : ℕ) → get_days_in_month_1 1 y ≡ 31
unfolding get_days_in_month_1
first_month y = elim (Bool-cases (is_leap_year y)) [ inl e ↦ rw e refl | inr e ↦ rw e refl ]

-- The days left of the year of `b`, and those gone of the year of `a`.
year_rest :
    (a b : MDate)
    → IsDay b
    → same_year_date_difference (record a { day_of_month = 31; month = 12; year = b.year }) b
      ≡ some (pos (at 31 12 b.year - ordinal b))
year_rest a b vb =
    let d = december b.year in
    one_or_two (record a { day_of_month = 31; month = 12; year = b.year }) b
      ((omega arith, omega arith), omega arith, omega arith) vb refl
      (elim (Bool-cases (ltb b.month 12)) [
        | inl e ↦ inl (ltb→lt b.month 12 e)
        | inr e ↦
            let last : b.month ≡ 12 = ground (arith, vb.0.1) in
            inr (last, omega (arith, vb.2, ap (λ (m : ℕ). get_days_in_month_1 m b.year) last))
      ])

year_gone :
    (a : MDate)
    → IsDay a
    → same_year_date_difference a (record a { day_of_month = 1; month = 1; year = a.year })
      ≡ some (pos (ordinal a - at 1 1 a.year))
year_gone a va =
    let d = first_month a.year in
    one_or_two a (record a { day_of_month = 1; month = 1; year = a.year }) va
      ((omega arith, omega arith), omega arith, omega arith) refl
      (elim (Bool-cases (ltb 1 a.month)) [
        | inl e ↦ inl (ltb→lt 1 a.month e)
        | inr e ↦ let first : 1 ≡ a.month = ground (arith, va.0.0) in inr (first, va.1)
      ])

pub difference_from_lem :
    (a b : MDate)
    → IsDay a
    → IsDay b
    → Lesser b a
    → difference_from a b ≡ some (pos (ordinal a - ordinal b))
unfolding difference_from mdate_set
difference_from_lem a b va vb (inl h) =
    let apart : (a.year == b.year) ≡ false = ground arith in
    let years : b.year + 1 + (a.year - (b.year + 1)) ≡ a.year = omega arith in
    let next : b.year + 1 ≡ suc b.year = omega arith in
    rw (apart, year_rest a b vb, year_gone a va)
      (ap some (
        add_pos (sum_years (a.year - (b.year + 1)) (b.year + 1)) (at 31 12 b.year - ordinal b)
          (ordinal a - at 1 1 a.year)
        ∙ ap pos (
            omega (
              arith,
              va.1,
              vb.2,
              sum_years_lem (a.year - (b.year + 1)) (b.year + 1),
              ap year_start years,
              ap year_start next,
              year_end b.year,
              december b.year,
              january a.year,
              ordinal-le_year b vb,
              january-le a va,
            ))))
  where
    ordinal-le_year : (b : MDate) → IsDay b → ordinal b ≤ year_start (suc b.year)
    ordinal-le_year b vb = at-le b.day_of_month b.month b.year vb

    january-le : (a : MDate) → IsDay a → at 1 1 a.year ≤ ordinal a
    january-le a va = omega (arith, january a.year, va.1)
difference_from_lem a b va vb (inr (y, inl h)) =
    let year_same = (==_iff a.year b.year).1 (sym y) in
    let month_apart : (a.month == b.month) ≡ false = ground arith in
    rw (year_same, month_apart) (two_months a b va vb (sym y) h)
difference_from_lem a b va vb (inr (y, inr (m, d))) =
    let year_same = (==_iff a.year b.year).1 (sym y) in
    let month_same = (==_iff a.month b.month).1 (sym m) in
    rw (year_same, month_same)
      (ap some (
        sub_ℕ-le a.day_of_month b.day_of_month (omega arith)
        ∙ ap pos (
            omega (
              arith,
              ap year_start y,
              ap (λ (y : ℕ). month_start y b.month) y,
              ap (month_start a.year) m,
            ))))

negated : (x : ℕ) → 0 < x → pos x *ℤ negsuc 0 ≡ negsuc (x - 1)
unfolding ◌*ℤ◌
negated x h = ground arith

kept : (x : ℕ) → pos x *ℤ pos 1 ≡ pos x
unfolding ◌*ℤ◌
kept x = ground arith

sub_ℕ-lt : (a b : ℕ) → a < b → sub_ℕ a b ≡ negsuc (b - a - 1)
sub_ℕ-lt a b h = ground arith

-- For two days of the calendar `mdate_DateDifference` ends and answers the difference of their numbers,
-- negative when the first is the lesser.
pub date_difference_lem :
    (a b : MDate) → IsDay a → IsDay b → date_difference a b ≡ some (sub_ℕ (ordinal a) (ordinal b))
unfolding date_difference
date_difference_lem a b va vb = elim (trichotomy a b) [
  | inl l ↦
      let h = Lesser-ordinal a b va vb l in
      let apart = different a b (λ e. absurd (omega arith)) in
      rw (apart, (is_lesser-Lesser a b).1 l, difference_from_lem b a vb va l)
        (ap some (
          negated (ordinal b - ordinal a) (omega arith)
          ∙ ap negsuc (omega arith)
          ∙ sym (sub_ℕ-lt (ordinal a) (ordinal b) h)))
  | inr (inl s) ↦
      let e = Same-ordinal a b s in
      rw ((is_equal-Same a b).1 s)
        (ap some (ap pos (omega arith) ∙ sym (sub_ℕ-le (ordinal a) (ordinal b) (omega arith))))
  | inr (inr g) ↦
      let h = Lesser-ordinal b a vb va g in
      let apart = different a b (λ e. absurd (omega arith)) in
      rw (apart, not_lesser h, difference_from_lem a b va vb g)
        (ap some
          (kept (ordinal a - ordinal b) ∙ sym (sub_ℕ-le (ordinal a) (ordinal b) (omega arith))))
]
  where
    not_lesser : ordinal b < ordinal a → is_lesser a b ≡ false
    not_lesser h = elim (Bool-cases (is_lesser a b)) [
      | inl e ↦
          let k = Lesser-ordinal a b va vb ((is_lesser-Lesser a b).0 e) in absurd (omega arith)
      | inr e ↦ e
    ]
