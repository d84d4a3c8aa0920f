-- ===== src/Billing/Payments/Dates.antt =====
-- `periodEnd` of src/billing/payments.service.ts, over the dates of the Gregorian calendar that
-- JavaScript's `Date` counts in milliseconds of 1970.
use next_stock_oficial.Prelude.{
  ℕ, ◌+◌, ◌-◌, ◌*◌, ◌/◌, ◌%◌, min, Bool, true, false, not, ◌&&◌, ◌||◌, Option, none, some, ltb,
  ◌==◌, if◌then◌else◌,
}
use next_stock_oficial.Prelude.Result.{Result, ok, err}
use next_stock_oficial.Billing.Plans.{PlanInterval, yearly, lifetime}
use next_stock_oficial.Billing.Subscriptions.{BillingError, invalid_period}

-- a time in UTC; months count from 0, days from 1
pub record UtcDate : Type 0 where
  pub year : ℕ
  pub month : ℕ
  pub day : ℕ
  pub time : ℕ

abbrev day_length : ℕ
day_length = 86400000

-- the days from the 1st of March of the year 0 to the 1st of January of 1970
abbrev epoch_days : ℕ
epoch_days = 719468

-- the date of the day `n` of a year that starts in March
abbrev date_of_day : ℕ → ℕ → ℕ → UtcDate
date_of_day year n time =
    let m = (5 * n + 2) / 153 in
    record {
      year = if ltb m 10 then year else year + 1;
      month = if ltb m 10 then m + 2 else m - 10;
      day = n - (153 * m + 2) / 5 + 1;
      time = time;
    }

-- the year of the day `n` of a cycle of 400 years
abbrev year_of_cycle : ℕ → ℕ
year_of_cycle n = (n - n / 1460 + n / 36524 - n / 146096) / 365

abbrev days_before : ℕ → ℕ
days_before y = 365 * y + y / 4 - y / 100

unfoldable pub utc_date : ℕ → UtcDate
utc_date ms =
    let z = ms / day_length + epoch_days in
    let n = z % 146097 in
    let y = year_of_cycle n in
    date_of_day (y + z / 146097 * 400) (n - days_before y) (ms % day_length)

unfoldable pub of_utc : UtcDate → ℕ
of_utc d =
    let y = if ltb d.month 2 then d.year - 1 else d.year in
    let m = if ltb d.month 2 then d.month + 10 else d.month - 2 in
    let n = (153 * m + 2) / 5 + d.day - 1 in
    (y / 400 * 146097 + (days_before (y % 400) + n) - epoch_days) * day_length + d.time

abbrev is_leap : ℕ → Bool
is_leap year = year % 4 == 0 && (not (year % 100 == 0) || year % 400 == 0)

-- the last day of a month
unfoldable pub last_day : ℕ → ℕ → ℕ
last_day year month =
    if month == 1
    then (if is_leap year then 29 else 28)
    else if month == 3 || month == 5 || month == 8 || month == 10
    then 30
    else 31

-- the same day some months later, or the last of that month where it is shorter
unfoldable pub add_months : ℕ → UtcDate → UtcDate
unfolding last_day
add_months months d =
    let year = d.year + (d.month + months) / 12 in
    let month = (d.month + months) % 12 in
    record d { year = year; month = month; day = min d.day (last_day year month) }

abbrev months_of : PlanInterval → ℕ → ℕ
months_of yearly count = count * 12
months_of _ count = count

abbrev is_lifetime : PlanInterval → Bool
is_lifetime lifetime = true
is_lifetime _ = false

unfoldable pub period_end : ℕ → PlanInterval → ℕ → Result BillingError (Option ℕ)
unfolding add_months utc_date of_utc
period_end start interval count =
    if is_lifetime interval
    then ok none
    else if count == 0
    then err invalid_period
    else ok (some (of_utc (add_months (months_of interval count) (utc_date start))))
