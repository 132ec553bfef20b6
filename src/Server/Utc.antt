-- ===== src/Server/Utc.antt =====
-- `format_utc` of src/server.rs, at the seconds since 1970 that `format_utc_now` gives it: these are not
-- negative, and below 2 ^ 63, so that nothing of the `i64` arithmetic is negative or overflows.
pub mod Back
use replstoke.Common.{ℕ, ◌+◌, ◌-◌, ◌*◌, ◌/◌, ◌%◌, [], ◌∷◌, ◌++◌, Bytes, leb, ltb, if◌then◌else◌}
use replstoke.Strings.Decimal.{format_padded}

pub record Stamp : Type 0 where
  pub year : ℕ
  pub month : ℕ
  pub day : ℕ
  pub hour : ℕ
  pub min : ℕ
  pub sec : ℕ

-- The year of an era of 400 years by its day, and the day of that year, which starts in March.
unfoldable pub year_of_era : ℕ → ℕ
year_of_era doe = (doe - doe / 1460 + doe / 36524 - doe / 146096) / 365

unfoldable pub day_of_year : ℕ → ℕ
unfolding year_of_era
day_of_year doe = let yoe = year_of_era doe in doe - (365 * yoe + yoe / 4 - yoe / 100)

-- The month of that year, and the day of the month.
unfoldable pub month_index : ℕ → ℕ
month_index doy = (5 * doy + 2) / 153

unfoldable pub day_of_month : ℕ → ℕ
unfolding month_index
day_of_month doy = doy - (153 * month_index doy + 2) / 5 + 1

unfoldable pub month_of : ℕ → ℕ
month_of mp = if ltb mp 10 then mp + 3 else mp - 9

unfoldable pub stamp : ℕ → Stamp
unfolding year_of_era day_of_year month_index day_of_month month_of
stamp secs =
    let rem = secs % 86400 in
    let z = secs / 86400 + 719468 in
    let era = z / 146097 in
    let doe = z - era * 146097 in
    let doy = day_of_year doe in
    let month = month_of (month_index doy) in
    let year = year_of_era doe + era * 400 in
    record {
      year = year + (if leb month 2 then 1 else 0);
      month = month;
      day = day_of_month doy;
      hour = rem / 3600;
      min = (rem % 3600) / 60;
      sec = rem % 60;
    }

-- `{year:04}-{month:02}-{day:02}_{hour:02}-{min:02}-{sec:02}`.
unfoldable pub stamp_text : Stamp → Bytes
stamp_text t =
    format_padded 4 t.year
    ++ (b'-' ∷ format_padded 2 t.month)
    ++ (b'-' ∷ format_padded 2 t.day)
    ++ (b'_' ∷ format_padded 2 t.hour)
    ++ (b'-' ∷ format_padded 2 t.min)
    ++ (b'-' ∷ format_padded 2 t.sec)

unfoldable pub format_utc : ℕ → Bytes
unfolding stamp stamp_text
format_utc secs = stamp_text (stamp secs)
