-- ===== src/Tests/Timegm.antt =====
-- The seconds of a date: 29 February 2024, 12:30:15.
use h2loadrunner.Base.{◌+◌, ◌-◌, ◌*◌, ◌≡◌, refl, some, ok, arith}
use h2loadrunner.Timegm.{Tm, nghttp2_timegm, nghttp2_timegm_without_yday}
use h2loadrunner.Timegm.Calendar.{days_since_1970, nghttp2_timegm-days_since_1970}

abbrev leap_date : Tm
leap_date = record {
  tm_sec = 15;
  tm_min = 30;
  tm_hour = 12;
  tm_mday = 29;
  tm_mon = 1;
  tm_year = 124;
  tm_yday = 59;
}

leap_date_seconds : nghttp2_timegm leap_date ≡ ok (some 1709209815)
unfolding nghttp2_timegm
leap_date_seconds = refl

leap_date_without_yday : nghttp2_timegm_without_yday leap_date ≡ ok (some 1709209815)
unfolding nghttp2_timegm_without_yday
leap_date_without_yday = refl

nghttp2_timegm-days_since_1970_example :
    nghttp2_timegm leap_date
    ≡ ok (some (86400 * (days_since_1970 (124 - 70) + 59) + 3600 * 12 + 60 * 30 + 15))
nghttp2_timegm-days_since_1970_example =
    nghttp2_timegm-days_since_1970 leap_date (omega arith) (omega arith) (omega arith) (omega arith)
