-- ===== src/Timegm.antt =====
-- timegm.c: the seconds since 1970 of a broken-down time in UTC, with the day of the year or with the
-- day of the month. The fields are natural numbers, and the years are those from 1970 on. What the code
-- computes in `int` is checked against 32 bits, and stops where it overflows, which is undefined in the
-- code; the seconds are computed in `int64_t`, which holds what comes of fields of 32 bits. The result -1
-- is `none`.
pub mod Calendar
use h2loadrunner.Base.{
  ℕ, ◌+◌, ◌-◌, ◌*◌, ◌/◌, ◌%◌, ◌==◌, ltb, leb, if◌then◌else◌, Bool, true, false, not, ◌&&◌, ◌||◌,
  Option, none, some, get_elem?, Outcome, ok, stop, aborts, or_stop, ◌>>=◌, List, [], ◌∷◌,
}

-- `struct tm`: years since 1900, months since January, days of the year from 0, of the month from 1.
pub record Tm : Type 0 where
  pub tm_sec : ℕ
  pub tm_min : ℕ
  pub tm_hour : ℕ
  pub tm_mday : ℕ
  pub tm_mon : ℕ
  pub tm_year : ℕ
  pub tm_yday : ℕ

-- The leap years in the range [0, y), for a year above 0.
abbrev pub count_leap_year : ℕ → ℕ
count_leap_year y = ((y - 1) / 4 - (y - 1) / 100) + (y - 1) / 400

abbrev pub is_leap_year : ℕ → Bool
is_leap_year y = (y % 4 == 0) && (not (y % 100 == 0) || (y % 400 == 0))

abbrev pub daysum : List ℕ
daysum = 0 ∷ 31 ∷ 59 ∷ 90 ∷ 120 ∷ 151 ∷ 181 ∷ 212 ∷ 243 ∷ 273 ∷ 304 ∷ 334 ∷ []

-- A result of the type `int`.
unfoldable pub checked : ℕ → Outcome ℕ
checked n = if ltb n 2147483648 then ok n else stop aborts

-- The days before the year.
unfoldable pub days_of_year : ℕ → Outcome ℕ
unfolding checked
days_of_year tm_year = checked (tm_year + 1900) >>= λ year.
    checked ((tm_year - 70) * 365) >>= λ days.
    checked (days + (count_leap_year year - count_leap_year 1970))

-- The seconds of a number of days and a time of day.
unfoldable pub seconds : ℕ → Tm → Outcome (Option ℕ)
unfolding checked
seconds days tm = checked (tm.tm_min * 60) >>= λ minutes.
    ok (some (((days * 24 + tm.tm_hour) * 3600 + minutes) + tm.tm_sec))

unfoldable pub nghttp2_timegm : Tm → Outcome (Option ℕ)
unfolding checked days_of_year seconds
nghttp2_timegm tm =
    if ltb 11 tm.tm_mon
    then ok none
    else days_of_year tm.tm_year >>= λ days.
        checked (days + tm.tm_yday) >>= λ days'. seconds days' tm

-- `++days` for a month behind February in a leap year.
unfoldable pub add_leap_day : Tm → ℕ → Outcome ℕ
unfolding checked
add_leap_day tm days =
    if leb 2 tm.tm_mon && is_leap_year (tm.tm_year + 1900) then checked (days + 1) else ok days

unfoldable pub nghttp2_timegm_without_yday : Tm → Outcome (Option ℕ)
unfolding checked days_of_year seconds add_leap_day
nghttp2_timegm_without_yday tm =
    if ltb 11 tm.tm_mon
    then ok none
    else days_of_year tm.tm_year >>= λ days. or_stop (get_elem? daysum tm.tm_mon) aborts >>= λ sum.
        checked (days + sum) >>= λ before. checked (before + tm.tm_mday) >>= λ total.
        add_leap_day tm (total - 1) >>= λ days'. seconds days' tm
