-- ===== src/Hr/Gosi.antt =====
-- packages/core/src/hr/gosi.ts: social insurance contributions. Rates are decimals; a date is its UTC
-- year, month and day.
pub mod Laws
use markaz.Prelude.{
  ℕ, ◌+◌, ◌-◌, ◌*◌, ◌≡◌, Bool, true, false, Option, none, some, List, [], ◌∷◌, arith, ltb, leb,
  if◌then◌else◌,
}
use markaz.Prelude.Int.{ℤ, pos, ◌+ℤ◌}
use markaz.Decimals.{Decimal, Arithmetic, min_ℤ}

pub record Date : Type 0 where
  pub year : ℕ
  pub month : ℕ
  pub day : ℕ

-- Date.UTC(2024, 6, 2): months are counted from 0.
abbrev pub gosi_law_effective_date : Date
gosi_law_effective_date = record { year = 2024; month = 6; day = 2 }

-- A step of PENSION_SCHEDULE: the last month that it covers (`none` for Infinity) and its rate in
-- hundredths.
pub record ScheduleStep : Type 0 where
  pub through_month : Option ℕ
  pub total_rate : ℕ

abbrev pub pension_schedule : List ScheduleStep
pension_schedule =
    record { through_month = some 12; total_rate = 18 }
    ∷ record { through_month = some 24; total_rate = 19 }
    ∷ record { through_month = some 36; total_rate = 20 }
    ∷ record { through_month = some 48; total_rate = 21 }
    ∷ record { through_month = none; total_rate = 22 }
    ∷ []

-- Differences below zero are 0, as `Math.max(0, total)` makes them.
unfoldable pub months_between : Date → Date → ℕ
months_between from to =
    (to.year * 12 + to.month)
    - (from.year * 12 + from.month)
    - (if ltb to.day from.day then 1 else 0)

abbrev pub covers : ScheduleStep → ℕ → Bool
covers s months = elim s.through_month [ none ↦ true | some last ↦ leb months last ]

-- `find(...) ?? last`; the last step covers every month.
abbrev pub rate_at : List ScheduleStep → ℕ → ℕ
rate_at [] months = 0
rate_at (s ∷ []) months = s.total_rate
rate_at (s ∷ t ∷ ss) months = if covers s months then s.total_rate else rate_at (t ∷ ss) months

unfoldable pub pension_rate_total_as_of : Date → Date → ℕ
pension_rate_total_as_of as_of law_effective_date =
    rate_at pension_schedule (months_between law_effective_date as_of + 1)

pub record GosiContribution : Type 0 where
  pub contribution_base : Decimal
  -- In hundredths.
  pub pension_rate_total : ℕ
  pub employee_share : Decimal
  pub employer_share : Decimal

pub record GosiParams : Type 0 where
  pub basic_salary : Decimal
  pub housing_allowance : Decimal
  pub is_saudi : Bool
  pub gosi_legacy_track : Bool
  pub as_of : Date

module _ (m : Arithmetic) where
  open m use {units_per_4, times, divided_by, round4}

  -- `k` hundredths.
  abbrev pub hundredths : ℕ → Decimal
  hundredths k = pos (k * 100 * units_per_4)

  -- GOSI_CONTRIBUTION_BASE_CAP, 45000.
  abbrev pub contribution_base_cap : Decimal
  contribution_base_cap = pos (450000000 * units_per_4)

  abbrev pub base_of : GosiParams → Decimal
  base_of p = min_ℤ (p.basic_salary +ℤ p.housing_allowance) contribution_base_cap

  abbrev pub pension_share_per_side : ℕ → Decimal
  pension_share_per_side rate = divided_by (hundredths rate) (hundredths 200)

  abbrev pub expatriate_contribution : Decimal → GosiContribution
  expatriate_contribution base = record {
    contribution_base = round4 base;
    pension_rate_total = 0;
    employee_share = pos 0;
    employer_share = round4 (times base (hundredths 2));
  }

  abbrev pub saudi_contribution : Decimal → ℕ → GosiContribution
  saudi_contribution base rate =
      let per_side = pension_share_per_side rate in
      record {
        contribution_base = round4 base;
        pension_rate_total = rate;
        employee_share = round4 (times base per_side +ℤ times base (hundredths 1));
        employer_share =
            round4 (times base per_side +ℤ times base (hundredths 2) +ℤ times base (hundredths 1));
      }

  -- `none` is GosiLegacyTrackError.
  pub compute_gosi_contribution : GosiParams → Option GosiContribution
  unfolding pension_rate_total_as_of
  compute_gosi_contribution p =
      if p.gosi_legacy_track
      then none
      else if p.is_saudi
      then some (
          saudi_contribution (base_of p) (pension_rate_total_as_of p.as_of gosi_law_effective_date))
      else some (expatriate_contribution (base_of p))
