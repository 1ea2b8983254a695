-- ===== src/Accounting/FiscalYear.antt =====
-- `fiscalYearKeyFor` (packages/core/src/accounting/fiscal-period.util.ts), with the calendar year of a
-- date, and `companyCurrency` (company-currency.util.ts).
use markaz.Prelude.{
  ℕ, ◌+◌, ◌-◌, ◌*◌, ◌/◌, ◌%◌, ◌&&◌, Option, none, some, List, leb, ◌==◌, if◌then◌else◌,
}
use markaz.Prelude.Text.{Text, show}
use markaz.Store.{find}

-- `getUTCFullYear` of a number of days since 1 January 1970.
abbrev pub full_year : ℕ → ℕ
full_year days =
    let z = days + 719468 in
    let day_of_era = z % 146097 in
    let year_of_era =
      (day_of_era - day_of_era / 1460 + day_of_era / 36524 - day_of_era / 146096) / 365 in
    let day_of_year = day_of_era - (365 * year_of_era + year_of_era / 4 - year_of_era / 100) in
    let month = (5 * day_of_year + 2) / 153 in
    year_of_era + z / 146097 * 400 + (if leb 10 month then 1 else 0)

pub record FiscalYear : Type 0 where
  pub id : ℕ
  pub company_id : ℕ
  pub name : Text
  pub start_date : ℕ
  pub end_date : ℕ

abbrev pub fiscal_year_key_for : ℕ → ℕ → List FiscalYear → Text
fiscal_year_key_for company_id date years =
    elim (find (λ y. (y.company_id == company_id) && (leb y.start_date date && leb date y.end_date))
      years) [ some year ↦ year.name | none ↦ show (full_year date) ]

pub record Company : Type 0 where
  pub id : ℕ
  pub default_currency : Text

abbrev pub company_currency : ℕ → List Company → Option Text
company_currency company_id companies = elim (find (λ c. c.id == company_id) companies) [
  | some c ↦ some c.default_currency
  | none ↦ none
]
