-- ===== src/Timegm/Calendar.antt =====
-- The closed forms of timegm.c against a calendar that counts years and months one by one.
use h2loadrunner.Base.{
  ℕ, zero, suc, ◌+◌, ◌-◌, ◌*◌, ◌/◌, ◌%◌, ◌≤◌, ◌<◌, ◌==◌, ◌≡◌, refl, ap, ◌∙◌, leb, ltb,
  if◌then◌else◌, Bool, true, false, ◌&&◌, ◌||◌, some, get_elem?, ok, arith,
}
use h2loadrunner.Timegm.{
  Tm, count_leap_year, is_leap_year, daysum, checked, days_of_year, seconds, add_leap_day,
  nghttp2_timegm, nghttp2_timegm_without_yday,
}

-- The length of a year, and the days from 1970 up to the year that is so many years later.
abbrev pub year_length : ℕ → ℕ
year_length y = if is_leap_year y then 366 else 365

abbrev pub days_since_1970 : ℕ → ℕ
days_since_1970 zero = 0
days_since_1970 (suc n) = days_since_1970 n + year_length (1970 + n)

-- The lengths of the months.
abbrev pub month_length : Bool → ℕ → ℕ
month_length leap month =
    if month == 1
    then (if leap then 29 else 28)
    else if (month == 3) || (month == 5) || (month == 8) || (month == 10)
    then 30
    else 31

abbrev pub days_before_month : Bool → ℕ → ℕ
days_before_month leap zero = 0
days_before_month leap (suc month) = days_before_month leap month + month_length leap month

-- A multiple of the divisor is counted as the number reaches it.
step_4 : (y : ℕ) → (y + 1) / 4 ≡ y / 4 + (if (y + 1) % 4 == 0 then 1 else 0)
step_4 y = ground arith

step_100 : (y : ℕ) → (y + 1) / 100 ≡ y / 100 + (if (y + 1) % 100 == 0 then 1 else 0)
step_100 y = ground arith

step_400 : (y : ℕ) → (y + 1) / 400 ≡ y / 400 + (if (y + 1) % 400 == 0 then 1 else 0)
step_400 y = ground arith

hundred-of_four_hundred : (y : ℕ) → y % 400 ≡ 0 → y % 100 ≡ 0
hundred-of_four_hundred y h = omega arith

four-of_hundred : (y : ℕ) → y % 100 ≡ 0 → y % 4 ≡ 0
four-of_hundred y h = omega arith

fewer_hundreds : (y : ℕ) → y / 100 ≤ y / 4
fewer_hundreds y = omega arith

-- The year is counted exactly if it is a leap year.
count_leap_year-suc :
    (y : ℕ)
    → count_leap_year (suc (suc y))
      ≡ count_leap_year (suc y) + (if is_leap_year (suc y) then 1 else 0)
count_leap_year-suc y = ground (
  arith,
  step_4 y,
  step_100 y,
  step_400 y,
  hundred-of_four_hundred (y + 1),
  four-of_hundred (y + 1),
  fewer_hundreds y,
)

some_leap_years : (n : ℕ) → count_leap_year 1970 ≤ count_leap_year (1970 + n)
some_leap_years zero = omega arith
some_leap_years (suc n) = omega (arith, some_leap_years n, count_leap_year-suc (1968 + n))

-- The days before a year, by the closed form.
abbrev closed_days : ℕ → ℕ
closed_days tm_year =
    (tm_year - 70) * 365 + (count_leap_year (tm_year + 1900) - count_leap_year 1970)

-- The closed form counts the days of the years one by one.
closed_days-since_1970 : (n : ℕ) → closed_days (70 + n) ≡ days_since_1970 n
closed_days-since_1970 zero = refl
closed_days-since_1970 (suc n) =
    ground (arith, closed_days-since_1970 n, count_leap_year-suc (1969 + n), some_leap_years n)

checked_small : (n : ℕ) → n < 2147483648 → checked n ≡ ok n
unfolding checked
checked_small n h = ground arith

days_since_1970_bound : (n : ℕ) → n * 365 ≤ days_since_1970 n
days_since_1970_bound zero = omega arith
days_since_1970_bound (suc n) = ground (arith, days_since_1970_bound n)

-- Where the days of the years fit into 32 bits, so do the numbers that they are made of.
pub days_of_year-since_1970 :
    (n : ℕ) → days_since_1970 n < 2147483648 → days_of_year (70 + n) ≡ ok (days_since_1970 n)
unfolding days_of_year
days_of_year-since_1970 n h =
    let few = days_since_1970_bound n in
    let same = closed_days-since_1970 n in
    rw
      (
        checked_small (70 + n + 1900) (omega (arith, few, h)),
        checked_small ((70 + n - 70) * 365) (omega (arith, few, h)),
      )
      (checked_small (closed_days (70 + n)) (omega (arith, same, h)) ∙ ap ok same)

days_of_year_from :
    (y : ℕ)
    → 70 ≤ y
    → days_since_1970 (y - 70) < 2147483648
    → days_of_year y ≡ ok (days_since_1970 (y - 70))
days_of_year_from y h small =
    ap days_of_year {x = y} {y = 70 + (y - 70)} (omega arith)
    ∙ days_of_year-since_1970 (y - 70) small

seconds_lem :
    (days : ℕ) (tm : Tm)
    → tm.tm_min * 60 < 2147483648
    → seconds days tm ≡ ok (some (86400 * days + 3600 * tm.tm_hour + 60 * tm.tm_min + tm.tm_sec))
unfolding seconds
seconds_lem days tm h = rw (checked_small (tm.tm_min * 60) h) (ap (λ n. ok (some n)) (omega arith))

-- The table holds the days before each month of a year that is not a leap year.
get_elem?-daysum :
    (month : ℕ) → month ≤ 11 → get_elem? daysum month ≡ some (days_before_month false month)
get_elem?-daysum zero h = refl
get_elem?-daysum (suc zero) h = refl
get_elem?-daysum (suc (suc zero)) h = refl
get_elem?-daysum (suc (suc (suc zero))) h = refl
get_elem?-daysum (suc (suc (suc (suc zero)))) h = refl
get_elem?-daysum (suc (suc (suc (suc (suc zero))))) h = refl
get_elem?-daysum (suc (suc (suc (suc (suc (suc zero)))))) h = refl
get_elem?-daysum (suc (suc (suc (suc (suc (suc (suc zero))))))) h = refl
get_elem?-daysum (suc (suc (suc (suc (suc (suc (suc (suc zero)))))))) h = refl
get_elem?-daysum (suc (suc (suc (suc (suc (suc (suc (suc (suc zero))))))))) h = refl
get_elem?-daysum (suc (suc (suc (suc (suc (suc (suc (suc (suc (suc zero)))))))))) h = refl
get_elem?-daysum (suc (suc (suc (suc (suc (suc (suc (suc (suc (suc (suc zero))))))))))) h = refl
get_elem?-daysum (suc (suc (suc (suc (suc (suc (suc (suc (suc (suc (suc (suc month)))))))))))) h =
    absurd (omega arith)

-- A leap year has one day more from March on.
leap_day :
    (leap : Bool) (month : ℕ)
    → month ≤ 11
    → days_before_month leap month ≡ (
        if leb 2 month && leap
        then days_before_month false month + 1
        else days_before_month false month)
leap_day false month h = ground arith
leap_day true zero h = refl
leap_day true (suc zero) h = refl
leap_day true (suc (suc zero)) h = refl
leap_day true (suc (suc (suc zero))) h = refl
leap_day true (suc (suc (suc (suc zero)))) h = refl
leap_day true (suc (suc (suc (suc (suc zero))))) h = refl
leap_day true (suc (suc (suc (suc (suc (suc zero)))))) h = refl
leap_day true (suc (suc (suc (suc (suc (suc (suc zero))))))) h = refl
leap_day true (suc (suc (suc (suc (suc (suc (suc (suc zero)))))))) h = refl
leap_day true (suc (suc (suc (suc (suc (suc (suc (suc (suc zero))))))))) h = refl
leap_day true (suc (suc (suc (suc (suc (suc (suc (suc (suc (suc zero)))))))))) h = refl
leap_day true (suc (suc (suc (suc (suc (suc (suc (suc (suc (suc (suc zero))))))))))) h = refl
leap_day true (suc (suc (suc (suc (suc (suc (suc (suc (suc (suc (suc (suc month)))))))))))) h =
    absurd (omega arith)

-- The day of the year, from 0, of a day of the month, from 1.
abbrev pub day_of_year : Tm → ℕ
day_of_year tm = (days_before_month (is_leap_year (tm.tm_year + 1900)) tm.tm_mon + tm.tm_mday) - 1

not_late : (month : ℕ) → month ≤ 11 → ltb 11 month ≡ false
not_late month h = ground arith

-- The day that the function without the day of the year counts to.
day_of_month :
    (leap : Bool) (month year mday : ℕ)
    → month ≤ 11
    → 1 ≤ mday
    → (let days = (year + days_before_month false month + mday) - 1 in
        if leb 2 month && leap then days + 1 else days)
      ≡ year + ((days_before_month leap month + mday) - 1)
day_of_month leap month year mday h k = ground (arith, leap_day leap month h)

-- From 1970 on, with a month up to December, where the days since 1970 and the seconds of the minutes are
-- below 2 ^ 31, the result is 86400 seconds for each day since 1970, the years counted one by one, and the
-- seconds of the time of day; no sum of the code overflows.
pub nghttp2_timegm-days_since_1970 :
    (tm : Tm)
    → tm.tm_mon ≤ 11
    → 70 ≤ tm.tm_year
    → days_since_1970 (tm.tm_year - 70) + tm.tm_yday < 2147483648
    → tm.tm_min * 60 < 2147483648
    → nghttp2_timegm tm
      ≡ ok (
          some (
            86400 * (days_since_1970 (tm.tm_year - 70) + tm.tm_yday)
            + 3600 * tm.tm_hour
            + 60 * tm.tm_min
            + tm.tm_sec))
unfolding nghttp2_timegm
nghttp2_timegm-days_since_1970 tm h k small short =
    let years : days_of_year tm.tm_year ≡ ok (days_since_1970 (tm.tm_year - 70)) =
      days_of_year_from tm.tm_year k (omega arith) in
    rw (not_late tm.tm_mon h, years, checked_small _ small) (seconds_lem _ tm short)

year_days :
    (month : ℕ) (leap : Bool)
    → month ≤ 11
    → days_before_month false month ≤ days_before_month leap month
year_days month leap h = ground (arith, leap_day leap month h)

add_leap_day_lem :
    (tm : Tm) (year : ℕ)
    → tm.tm_mon ≤ 11
    → 1 ≤ tm.tm_mday
    → year + day_of_year tm < 2147483648
    → add_leap_day tm ((year + days_before_month false tm.tm_mon + tm.tm_mday) - 1)
      ≡ ok (year + day_of_year tm)
unfolding add_leap_day checked
add_leap_day_lem tm year h k small =
    ground (arith, day_of_month (is_leap_year (tm.tm_year + 1900)) tm.tm_mon year tm.tm_mday h k)

-- From 1970 on, with a month up to December and a day of the month from 1 on, where the days since 1970
-- are below 2 ^ 31 - 1, the time is that of the day of the year on which that day falls, the months counted
-- one by one; the field for the day of the year is not read.
pub nghttp2_timegm_without_yday-nghttp2_timegm :
    (tm : Tm)
    → tm.tm_mon ≤ 11
    → 70 ≤ tm.tm_year
    → 1 ≤ tm.tm_mday
    → days_since_1970 (tm.tm_year - 70) + day_of_year tm < 2147483647
    → nghttp2_timegm_without_yday tm ≡ nghttp2_timegm (record tm { tm_yday = day_of_year tm })
unfolding nghttp2_timegm nghttp2_timegm_without_yday
nghttp2_timegm_without_yday-nghttp2_timegm tm h k l small =
    let year = days_since_1970 (tm.tm_year - 70) in
    let years : days_of_year tm.tm_year ≡ ok year = days_of_year_from tm.tm_year k (omega arith) in
    let leap = leap_day (is_leap_year (tm.tm_year + 1900)) tm.tm_mon h in
    let fewer = year_days tm.tm_mon (is_leap_year (tm.tm_year + 1900)) h in
    rw
      (
        not_late tm.tm_mon h,
        years,
        get_elem?-daysum tm.tm_mon h,
        checked_small (year + days_before_month false tm.tm_mon) (omega arith),
        checked_small (year + days_before_month false tm.tm_mon + tm.tm_mday) (omega arith),
        checked_small (year + day_of_year tm) (omega arith),
        add_leap_day_lem tm year h l (omega arith),
      )
      refl
