-- ===== src/Util/Time/Civil.antt =====
-- `days_from_civil` counts the days of the Gregorian calendar.
use haiku_mgmt_agent.Prelude.{
  ℕ, zero, suc, ◌+◌, ◌-◌, ◌*◌, ◌/◌, ◌%◌, ◌≤◌, ◌<◌, ◌≡◌, refl, ap, arith, Bool, true, false, not,
  ◌&&◌, ◌||◌, if◌then◌else◌, leb, ltb, ◌==◌, Bool-cases, inl, inr, ◌≢◌, ◌∙◌, sym, subst, if_true,
  if_false, by_test,
}
use haiku_mgmt_agent.Prelude.Int.{ℤ, pos, sub_ℕ, increment}
use haiku_mgmt_agent.Util.Time.{
  era_of, year_of_era, day_of_year, day_of_era, era_day, days_from_civil,
}

abbrev pub is_leap : ℕ → Bool
is_leap y = y % 4 == 0 && (not (y % 100 == 0) || y % 400 == 0)

abbrev pub days_in_month : ℕ → ℕ → ℕ
days_in_month y m =
    if m == 2
    then (if is_leap y then 29 else 28)
    else if m == 4 || (m == 6 || (m == 9 || m == 11))
    then 30
    else 31

-- The day after a date, in the calendar's own terms.
abbrev pub next_day : ℕ × ℕ × ℕ → ℕ × ℕ × ℕ
next_day (y, m, d) =
    if ltb d (days_in_month y m)
    then (y, m, d + 1)
    else if ltb m 12
    then (y, m + 1, 1)
    else (y + 1, 1, 1)

abbrev pub days_of : ℕ × ℕ × ℕ → ℤ
days_of (y, m, d) = days_from_civil (pos y) m d

-- The shifted count: for a year that starts in March, as a natural number.
abbrev count : ℕ → ℕ → ℕ
count y doy = y / 400 * 146097 + (y % 400 * 365 + y % 400 / 4 - y % 400 / 100 + doy)

era_day-count :
    (y doy : ℕ)
    → doy < 400
    → era_day (era_of (pos y)) (day_of_era (year_of_era (pos y)) doy) ≡ sub_ℕ (count y doy) 719468
unfolding era_of year_of_era day_of_era era_day
era_day-count y doy h = ap (λ n. sub_ℕ n 719468) (omega arith)

-- The leap day stands at the end of the year that starts in March.
count-year : (y : ℕ) → count (y + 1) 0 ≡ count y (if is_leap (y + 1) then 366 else 365)
count-year y = ground arith

abbrev day_number : ℕ → ℕ → ℕ
day_number m d = (153 * (if leb m 2 then m + 9 else m - 3) + 2) / 5 + d - 1

day_of_year-day_number :
    (m d : ℕ) → 1 ≤ m → m ≤ 12 → 1 ≤ d → d ≤ 31 → day_of_year m d ≡ day_number m d
unfolding day_of_year
day_of_year-day_number m d m1 m2 d1 d2 = ground arith

day_number-lt : (m d : ℕ) → 1 ≤ m → m ≤ 12 → 1 ≤ d → d ≤ 31 → day_number m d < 400
day_number-lt m d m1 m2 d1 d2 = ground arith

-- The days up to a date, from the first of March of the year 0.
abbrev days_up_to : ℕ → ℕ → ℕ → ℕ
days_up_to y m d = if leb m 2 then count (y - 1) (day_number m d) else count y (day_number m d)

-- A date of the calendar, from the year 1 on.
abbrev pub IsDate : ℕ → ℕ → ℕ → Type 0
IsDate y m d = (1 ≤ y) × ((1 ≤ m) × ((m ≤ 12) × ((1 ≤ d) × (d ≤ days_in_month y m))))

short_months : (y m : ℕ) → days_in_month y m ≤ 31
short_months y m = ground arith

civil_early :
    (y m d : ℕ)
    → leb m 2 ≡ true
    → days_from_civil (pos (suc y)) m d
      ≡ era_day (era_of (pos y)) (day_of_era (year_of_era (pos y)) (day_of_year m d))
unfolding days_from_civil
civil_early y m d early = rw early refl

civil_late :
    (y m d : ℕ)
    → leb m 2 ≡ false
    → days_from_civil (pos y) m d
      ≡ era_day (era_of (pos y)) (day_of_era (year_of_era (pos y)) (day_of_year m d))
unfolding days_from_civil
civil_late y m d late = rw late refl

shifted-count :
    (y m d : ℕ)
    → 1 ≤ m
    → m ≤ 12
    → 1 ≤ d
    → d ≤ 31
    → era_day (era_of (pos y)) (day_of_era (year_of_era (pos y)) (day_of_year m d))
      ≡ sub_ℕ (count y (day_number m d)) 719468
shifted-count y m d m1 m2 d1 d2 =
    ap (λ n. era_day (era_of (pos y)) (day_of_era (year_of_era (pos y)) n))
      (day_of_year-day_number m d m1 m2 d1 d2)
    ∙ era_day-count y (day_number m d) (day_number-lt m d m1 m2 d1 d2)

days_of-up_to :
    (y m d : ℕ) → IsDate y m d → days_from_civil (pos y) m d ≡ sub_ℕ (days_up_to y m d) 719468
days_of-up_to zero m d v = absurd (omega (arith, v.0))
days_of-up_to (suc y) m d (y1, (m1, (m2, (d1, d2)))) = elim (Bool-cases (leb m 2)) [
  | inl early ↦
      civil_early y m d early
      ∙ (shifted-count y m d m1 m2 d1 (omega (arith, d2, short_months (suc y) m))
          ∙ ap (λ n. sub_ℕ n 719468) (up_to_early early))
  | inr late ↦
      civil_late (suc y) m d late
      ∙ (shifted-count (suc y) m d m1 m2 d1 (omega (arith, d2, short_months (suc y) m))
          ∙ ap (λ n. sub_ℕ n 719468) (sym (if_false (leb m 2) _ _ late)))
]
  where
    up_to_early : leb m 2 ≡ true → count y (day_number m d) ≡ days_up_to (suc y) m d
    up_to_early early =
        ap (λ k. count k (day_number m d)) (omega arith) ∙ sym (if_true (leb m 2) _ _ early)

up_to_in_month : (y m d : ℕ) → IsDate y m d → days_up_to y m (d + 1) ≡ days_up_to y m d + 1
up_to_in_month y m d v = ground (arith, v)

up_to_new_year : (y : ℕ) → days_up_to (y + 1) 1 1 ≡ days_up_to y 12 31 + 1
up_to_new_year y = omega arith

up_to_march : (y : ℕ) → 1 ≤ y → days_up_to y 3 1 ≡ days_up_to y 2 (days_in_month y 2) + 1
up_to_march zero h = absurd (omega arith)
up_to_march (suc y) h = ground (arith, count-year y)

up_to_month :
    (y m : ℕ)
    → 1 ≤ y
    → 1 ≤ m
    → m < 12
    → m ≢ 2
    → days_up_to y (m + 1) 1 ≡ days_up_to y m (days_in_month y m) + 1
up_to_month y m y1 m1 m2 n2 = ground arith

increment-sub_ℕ : (n k : ℕ) → sub_ℕ (n + 1) k ≡ increment (sub_ℕ n k)
increment-sub_ℕ n k = ground arith

up_to_month_end :
    (y m : ℕ)
    → 1 ≤ y
    → 1 ≤ m
    → m < 12
    → days_up_to y (m + 1) 1 ≡ days_up_to y m (days_in_month y m) + 1
up_to_month_end y m y1 m1 m2 = elim (Bool-cases (m == 2)) [
  | inl two ↦
      subst (λ k. days_up_to y (k + 1) 1 ≡ days_up_to y k (days_in_month y k) + 1) (is_two two)
        (up_to_march y y1)
  | inr other ↦ up_to_month y m y1 m1 m2 (is_other other)
]
  where
    is_two : (m == 2) ≡ true → 2 ≡ m
    is_two h = ground arith

    is_other : (m == 2) ≡ false → m ≢ 2
    is_other h = ground arith

-- What the next day is: a date, one day further.
abbrev IsNext : ℕ → ℕ → ℕ → ℕ × ℕ × ℕ → Type 0
IsNext y m d (y', m', d') = IsDate y' m' d' × (days_up_to y' m' d' ≡ days_up_to y m d + 1)

next_day-IsNext : (y m d : ℕ) → IsDate y m d → IsNext y m d (next_day (y, m, d))
next_day-IsNext y m d v =
    by_test (IsNext y m d) (ltb d (days_in_month y m)) _ _
      (λ inside. ((v.0, (v.1.0, (v.1.1.0, (omega arith, ground arith)))), up_to_in_month y m d v))
      (λ at_end.
        by_test (IsNext y m d) (ltb m 12) _ _
          (λ month. (
            (v.0, (omega arith, (ground arith, (omega arith, some_days y (m + 1))))),
            up_to_month_end y m v.0 v.1.0 (ground arith)
                ∙ ap (λ k. days_up_to y m k + 1) (last_day at_end),
          ))
          (λ year. (
            (omega arith, (omega arith, (omega arith, (omega arith, some_days (y + 1) 1)))),
            up_to_new_year y ∙ last_date at_end year,
          )))
  where
    some_days : (y m : ℕ) → 1 ≤ days_in_month y m
    some_days y m = ground arith

    last_day : ltb d (days_in_month y m) ≡ false → days_in_month y m ≡ d
    last_day h = ground (arith, v)

    december : ltb m 12 ≡ false → 12 ≡ m
    december h = ground (arith, v)

    last_date :
        ltb d (days_in_month y m) ≡ false
        → ltb m 12 ≡ false
        → days_up_to y 12 31 + 1 ≡ days_up_to y m d + 1
    last_date h k =
        ap (λ n. days_up_to y 12 n + 1) (ap (days_in_month y) (december k) ∙ last_day h)
        ∙ ap (λ n. days_up_to y n d + 1) (december k)

-- `days_from_civil` counts days: from the year 1 on, the day after a date of the Gregorian calendar,
-- over the ends of months, leap years and centuries, has the number that follows the date's.
pub days_from_civil_next :
    (y m d : ℕ) → IsDate y m d → days_of (next_day (y, m, d)) ≡ increment (days_of (y, m, d))
days_from_civil_next y m d v =
    let (valid, one_more) = next_day-IsNext y m d v in
    let (y', m', d') = next_day (y, m, d) in
    days_of-up_to y' m' d' valid
    ∙ (ap (λ n. sub_ℕ n 719468) one_more
        ∙ (increment-sub_ℕ (days_up_to y m d) 719468 ∙ ap increment (sym (days_of-up_to y m d v))))
