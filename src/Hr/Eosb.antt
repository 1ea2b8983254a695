-- ===== src/Hr/Eosb.antt =====
-- packages/core/src/hr/eosb.ts: the award at the end of service. A date is its UTC year, month (from 0)
-- and day, as in Hr.Gosi; years are from 1970 on.
pub mod Laws
use markaz.Prelude.{ℕ, ◌+◌, ◌-◌, ◌*◌, ◌/◌, ◌%◌, Bool, true, false, leb, ltb, if◌then◌else◌}
use markaz.Prelude.Int.{ℤ, pos, ◌+ℤ◌, ◌-ℤ◌, leb_ℤ}
use markaz.Decimals.{Decimal, Arithmetic, one, min_ℤ, max_ℤ, less_than}
use markaz.Hr.Gosi.{Date}

pub data EndOfServiceReason : Type 0 where
  resignation termination other_reason : EndOfServiceReason

pub record EosbResult : Type 0 where
  pub years_of_service : Decimal
  pub gross_entitlement : Decimal
  pub entitlement_fraction : Decimal
  pub net_entitlement : Decimal

-- `Date.UTC(year, month, day)` in days since 1 January 1970; a day past the end of the month runs on.
abbrev pub utc_days : ℕ → ℕ → ℕ → ℕ
utc_days year month day =
    let y = if ltb month 2 then year - 1 else year in
    let m = if ltb month 2 then month + 10 else month - 2 in
    let year_of_era = y % 400 in
    let day_of_year = (153 * m + 2) / 5 + day - 1 in
    y / 400 * 146097
    + (year_of_era * 365 + year_of_era / 4 - year_of_era / 100 + day_of_year)
    - 719468

abbrev pub anniversary : Date → ℕ → ℕ
anniversary hired years = utc_days (hired.year + years) hired.month hired.day

-- Whole years, by the anniversary.
unfoldable pub whole_years : Date → Date → ℕ
whole_years hired ended =
    let years = ended.year - hired.year in
    if ltb (utc_days ended.year ended.month ended.day) (anniversary hired years)
    then years - 1
    else years

module _ (m : Arithmetic) where
  open m use {times, divided_by, round4, fixed3}

  abbrev pub whole : ℕ → Decimal
  whole n = pos (n * 10000 * m.units_per_4)

  -- Differences below zero are 0, as `Math.max(0, days)` makes them.
  unfoldable pub years_of_service_between : Date → Date → Decimal
  years_of_service_between hired ended =
      let years = whole_years hired ended in
      let last_anniversary = anniversary hired years in
      let days_in_current_year = anniversary hired (years + 1) - last_anniversary in
      let days_since_anniversary = utc_days ended.year ended.month ended.day - last_anniversary in
      whole years +ℤ divided_by (whole days_since_anniversary) (whole days_in_current_year)

  -- Article 85.
  abbrev pub resignation_fraction : Decimal → Decimal
  resignation_fraction years =
      if less_than years (whole 2)
      then pos 0
      else if leb_ℤ years (whole 5)
      then divided_by (whole 1) (whole 3)
      else if less_than years (whole 10)
      then divided_by (whole 2) (whole 3)
      else one m

  abbrev pub entitlement_fraction : EndOfServiceReason → Decimal → Decimal
  entitlement_fraction resignation years = resignation_fraction years
  entitlement_fraction termination years = one m
  entitlement_fraction other_reason years = one m

  -- 0.5.
  abbrev pub half : Decimal
  half = pos (5000 * m.units_per_4)

  abbrev pub gross_of : Decimal → Decimal → Decimal
  gross_of wage years =
      times (times wage half) (min_ℤ years (whole 5))
      +ℤ times wage (max_ℤ (years -ℤ whole 5) (pos 0))

  unfoldable pub compute_end_of_service_settlement :
      Decimal → Date → Date → EndOfServiceReason → EosbResult
  compute_end_of_service_settlement wage hired ended reason =
      let years = years_of_service_between hired ended in
      let gross = gross_of wage years in
      let fraction = entitlement_fraction reason years in
      record {
        years_of_service = fixed3 years;
        gross_entitlement = round4 gross;
        entitlement_fraction = round4 fraction;
        net_entitlement = round4 (times gross fraction);
      }
