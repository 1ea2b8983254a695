-- ===== src/Payments/Aging.antt =====
-- packages/core/src/payments/aging.util.ts and the sums of aging.service.ts: what each party owes, by
-- how long it is overdue. The rows per party are a list in the order of the Map's keys; names, the sort
-- by name and the ledger's own balance are left out.
pub mod Laws
pub mod Slots
use markaz.Prelude.{
  ℕ, ◌+◌, ◌≡◌, Bool, true, false, Option, none, some, List, [], ◌∷◌, ◌==◌, if◌then◌else◌,
}
use markaz.Prelude.Int.{ℤ, pos, ◌+ℤ◌, ◌-ℤ◌, leb_ℤ, eq_ℤ}
use markaz.Decimals.{Decimal, negated}
use markaz.Payments.Outstanding.{OutstandingInvoice}

pub data AgingBucket : Type 0 where
  current days_1_to_30 days_31_to_60 days_61_to_90 over_90 : AgingBucket

-- Dates are numbers of days.
abbrev pub days_past_due : ℕ → ℕ → ℤ
days_past_due due_date as_of = pos as_of -ℤ pos due_date

unfoldable pub bucket_for : ℤ → AgingBucket
bucket_for days =
    if leb_ℤ days (pos 0)
    then current
    else if leb_ℤ days (pos 30)
    then days_1_to_30
    else if leb_ℤ days (pos 60)
    then days_31_to_60
    else if leb_ℤ days (pos 90)
    then days_61_to_90
    else over_90

-- Record<AgingBucket | "onAccount", Decimal>.
pub record Amounts : Type 0 where
  pub not_due : Decimal
  pub up_to_30 : Decimal
  pub up_to_60 : Decimal
  pub up_to_90 : Decimal
  pub beyond : Decimal
  pub on_account : Decimal

abbrev pub zero_amounts : Amounts
zero_amounts = record {
  not_due = pos 0;
  up_to_30 = pos 0;
  up_to_60 = pos 0;
  up_to_90 = pos 0;
  beyond = pos 0;
  on_account = pos 0;
}

-- `row[bucket] = row[bucket].plus(value)`.
abbrev pub add_to : AgingBucket → Decimal → Amounts → Amounts
add_to current value a = record a { not_due = a.not_due +ℤ value }
add_to days_1_to_30 value a = record a { up_to_30 = a.up_to_30 +ℤ value }
add_to days_31_to_60 value a = record a { up_to_60 = a.up_to_60 +ℤ value }
add_to days_61_to_90 value a = record a { up_to_90 = a.up_to_90 +ℤ value }
add_to over_90 value a = record a { beyond = a.beyond +ℤ value }

-- The total of `toRow`.
abbrev pub total_of : Amounts → Decimal
total_of a = a.not_due +ℤ a.up_to_30 +ℤ a.up_to_60 +ℤ a.up_to_90 +ℤ a.beyond +ℤ a.on_account

-- `slot(partyId)`, with what is done to the row.
unfoldable pub slot : ℕ → (Amounts → Amounts) → List (ℕ × Amounts) → List (ℕ × Amounts)
slot party_id f [] = (party_id, f zero_amounts) ∷ []
slot party_id f (row ∷ rows) =
    if row.0 == party_id then (row.0, f row.1) ∷ rows else row ∷ slot party_id f rows

abbrev pub due_day : OutstandingInvoice → ℕ
due_day invoice = elim invoice.due_date [ some day ↦ day | none ↦ invoice.invoice_date ]

-- The loop over the open invoices.
unfoldable pub add_invoices : ℕ → List OutstandingInvoice → List (ℕ × Amounts) → List (ℕ × Amounts)
add_invoices as_of [] rows = rows
add_invoices as_of (invoice ∷ invoices) rows = add_invoices as_of invoices (
    if eq_ℤ invoice.outstanding (pos 0)
    then rows
    else slot invoice.party_id
        (add_to (bucket_for (days_past_due (due_day invoice) as_of)) invoice.outstanding) rows)

abbrev pub set_on_account : Decimal → Amounts → Amounts
set_on_account amount a = record a { on_account = negated amount }

-- The loop over the payments that are not allocated, one row for each party.
unfoldable pub add_unallocated : List (ℕ × Decimal) → List (ℕ × Amounts) → List (ℕ × Amounts)
add_unallocated [] rows = rows
add_unallocated (u ∷ us) rows =
    add_unallocated us (if eq_ℤ u.1 (pos 0) then rows else slot u.0 (set_on_account u.1) rows)

abbrev pub add_amounts : Amounts → Amounts → Amounts
add_amounts t a = record {
  not_due = t.not_due +ℤ a.not_due;
  up_to_30 = t.up_to_30 +ℤ a.up_to_30;
  up_to_60 = t.up_to_60 +ℤ a.up_to_60;
  up_to_90 = t.up_to_90 +ℤ a.up_to_90;
  beyond = t.beyond +ℤ a.beyond;
  on_account = t.on_account +ℤ a.on_account;
}

-- The loop that adds the totals up.
unfoldable pub add_totals : Amounts → List (ℕ × Amounts) → Amounts
add_totals t [] = t
add_totals t (row ∷ rows) = add_totals (add_amounts t row.1) rows

unfoldable pub report_rows : ℕ → List OutstandingInvoice → List (ℕ × Decimal) → List (ℕ × Amounts)
report_rows as_of invoices unallocated =
    add_unallocated unallocated (add_invoices as_of invoices [])

-- The total of the report's last row.
unfoldable pub report_total : ℕ → List OutstandingInvoice → List (ℕ × Decimal) → Decimal
report_total as_of invoices unallocated =
    total_of (add_totals zero_amounts (report_rows as_of invoices unallocated))
