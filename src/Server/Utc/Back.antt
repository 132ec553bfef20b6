-- ===== src/Server/Utc/Back.antt =====
-- The date that `format_utc` of src/server.rs prints, against the calendar.
use replstoke.Common.{
  ℕ, ◌+◌, ◌-◌, ◌*◌, ◌/◌, ◌%◌, ◌≤◌, ◌<◌, ◌≡◌, Bool, true, ◌&&◌, ◌||◌, not, leb, ltb, ◌==◌,
  if◌then◌else◌, arith, Bool-cases, inl, inr,
}
use replstoke.Server.Utc.{
  Stamp, year_of_era, day_of_year, month_index, day_of_month, month_of, stamp,
}

abbrev pub is_leap : ℕ → Bool
is_leap y = (y % 4 == 0) && (not (y % 100 == 0) || (y % 400 == 0))

abbrev pub leap_day : ℕ → ℕ
leap_day y = if is_leap y then 1 else 0

abbrev pub days_in_month : ℕ → ℕ → ℕ
days_in_month leap m =
    if m == 2 then 28 + leap else if m == 4 || (m == 6 || (m == 9 || m == 11)) then 30 else 31

-- The days before a month of a year.
abbrev pub days_before_month : ℕ → ℕ → ℕ
days_before_month leap m =
    if m == 1
    then 0
    else if m == 2
    then 31
    else if m == 3
    then 59 + leap
    else if m == 4
    then 90 + leap
    else if m == 5
    then 120 + leap
    else if m == 6
    then 151 + leap
    else if m == 7
    then 181 + leap
    else if m == 8
    then 212 + leap
    else if m == 9
    then 243 + leap
    else if m == 10
    then 273 + leap
    else if m == 11
    then 304 + leap
    else 334 + leap

-- The days before a year, from the year 0 on.
abbrev pub days_before_year : ℕ → ℕ
days_before_year y = 365 * y + (y + 3) / 4 - (y + 99) / 100 + (y + 399) / 400

year_bound : (doe : ℕ) → doe < 146097 → year_of_era doe < 400
unfolding year_of_era
year_bound doe h = omega arith

day_bound : (doe : ℕ) → doe < 146097 → day_of_year doe < 366
unfolding day_of_year
day_bound doe h = omega arith

-- The day of an era is that of its year, and the last day of a leap year is in one.
day_back :
    (doe : ℕ)
    → doe < 146097
    → 365 * year_of_era doe + year_of_era doe / 4 - year_of_era doe / 100 + day_of_year doe ≡ doe
unfolding day_of_year
day_back doe h = omega arith

last_day : (doe : ℕ) → doe < 146097 → day_of_year doe ≡ 365 → is_leap (year_of_era doe + 1) ≡ true
unfolding day_of_year
last_day doe h e = ground arith

march : (y : ℕ) → days_before_year y + 59 + leap_day y ≡ 365 * y + y / 4 - y / 100 + y / 400 + 60
march y = ground arith

next_year : (y : ℕ) → days_before_year (y + 1) ≡ days_before_year y + 365 + leap_day y
next_year y = ground arith

in_era :
    (era yoe : ℕ)
    → yoe < 400
    → 365 * (yoe + era * 400)
        + (yoe + era * 400) / 4
        - (yoe + era * 400) / 100
        + (yoe + era * 400) / 400
      ≡ era * 146097 + (365 * yoe + yoe / 4 - yoe / 100)
in_era era yoe h = omega arith

leap-era : (era yoe : ℕ) → leap_day (yoe + era * 400) ≡ leap_day yoe
leap-era era yoe = ground arith

-- From March to December.
month_late :
    (leap doy : ℕ)
    → doy < 306
    → let m = month_of (month_index doy) in
      let d = day_of_month doy in
      (2 < m)
      × (m ≤ 12)
      × (1 ≤ d)
      × (d ≤ days_in_month leap m)
      × (days_before_month leap m + (d - 1) ≡ 59 + leap + doy)
unfolding month_of month_index day_of_month
month_late leap doy h = ground arith

-- January and February.
month_early :
    (leap doy : ℕ)
    → 306 ≤ doy
    → doy < 365 + leap
    → leap ≤ 1
    → let m = month_of (month_index doy) in
      let d = day_of_month doy in
      (1 ≤ m)
      × (m ≤ 2)
      × (1 ≤ d)
      × (d ≤ days_in_month leap m)
      × (days_before_month leap m + (d - 1) + 306 ≡ doy)
unfolding month_of month_index day_of_month
month_early leap doy h g k = ground arith

abbrev pub IsDate : Stamp → Type 0
IsDate t =
    (1 ≤ t.month)
    × (t.month ≤ 12)
    × (1 ≤ t.day)
    × (t.day ≤ days_in_month (leap_day t.year) t.month)
    × (t.hour < 24)
    × (t.min < 60)
    × (t.sec < 60)

-- The days from the first day of the year 0, and the seconds.
abbrev pub days_of : Stamp → ℕ
days_of t = days_before_year t.year + days_before_month (leap_day t.year) t.month + (t.day - 1)

abbrev pub seconds_of : Stamp → ℕ
seconds_of t = days_of t * 86400 + t.hour * 3600 + t.min * 60 + t.sec

-- The date of a day `doe` of an era.
abbrev date_of : ℕ → ℕ → Stamp
date_of era doe =
    let m = month_of (month_index (day_of_year doe)) in
    record {
      year = year_of_era doe + era * 400 + (if leb m 2 then 1 else 0);
      month = m;
      day = day_of_month (day_of_year doe);
      hour = 0;
      min = 0;
      sec = 0;
    }

late-IsDate :
    (era doe : ℕ)
    → doe < 146097
    → day_of_year doe < 306
    → IsDate (date_of era doe) × (days_of (date_of era doe) ≡ era * 146097 + doe + 60)
late-IsDate era doe h late =
    let y = year_of_era doe + era * 400 in
    let (m2, m12, d1, dm, days) = month_late (leap_day y) (day_of_year doe) late in
    let same : y + (if leb (month_of (month_index (day_of_year doe))) 2 then 1 else 0) ≡ y =
      ground (arith, m2) in
    rw same (
      (omega (arith, m2), m12, d1, dm, omega arith, omega arith, omega arith),
      omega (arith, days, march y, in_era era (year_of_era doe) (year_bound doe h), day_back doe h),
    )

leap_day_le : (y : ℕ) → leap_day y ≤ 1
leap_day_le y = ground arith

-- A year from March on has 366 days when the next calendar year is a leap year.
leap_end :
    (era doe : ℕ)
    → doe < 146097
    → day_of_year doe < 365 + leap_day (year_of_era doe + era * 400 + 1)
leap_end era doe h =
    ground (arith, last_day doe h, day_bound doe h, leap-era era (year_of_era doe + 1))

early-IsDate :
    (era doe : ℕ)
    → doe < 146097
    → 306 ≤ day_of_year doe
    → IsDate (date_of era doe) × (days_of (date_of era doe) ≡ era * 146097 + doe + 60)
early-IsDate era doe h early =
    let y = year_of_era doe + era * 400 in
    let (m1, m2, d1, dm, days) =
      month_early (leap_day (y + 1)) (day_of_year doe) early (leap_end era doe h)
        (leap_day_le (y + 1)) in
    let same : y + (if leb (month_of (month_index (day_of_year doe))) 2 then 1 else 0) ≡ y + 1 =
      ground (arith, m2) in
    rw same (
      (m1, omega (arith, m2), d1, dm, omega arith, omega arith, omega arith),
      omega (
        arith,
        days,
        march y,
        next_year y,
        in_era era (year_of_era doe) (year_bound doe h),
        day_back doe h,
      ),
    )

any-IsDate :
    (era doe : ℕ)
    → doe < 146097
    → IsDate (date_of era doe) × (days_of (date_of era doe) ≡ era * 146097 + doe + 60)
any-IsDate era doe h = elim (Bool-cases (ltb (day_of_year doe) 306)) [
  | inl e ↦ late-IsDate era doe h (ground arith)
  | inr e ↦ early-IsDate era doe h (ground arith)
]

-- For every number of seconds since 1970, the date and time that format_utc prints is one of the
-- Gregorian calendar, leap years included, and the seconds that the calendar counts up to it from the
-- year 0 are those given and the 719528 days before 1970.
pub stamp-IsDate :
    (secs : ℕ) → IsDate (stamp secs) × (seconds_of (stamp secs) ≡ secs + 719528 * 86400)
unfolding stamp
stamp-IsDate secs =
    let z = secs / 86400 + 719468 in
    let ((m1, m12, d1, dm, h0, h1, h2), days) =
      any-IsDate (z / 146097) (z - z / 146097 * 146097) (omega arith) in
    ((m1, m12, d1, dm, omega arith, omega arith, omega arith), omega (arith, days))
