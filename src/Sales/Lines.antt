-- ===== src/Sales/Lines.antt =====
-- packages/core/src/sales/sales-lines.ts: the lines of a quotation, an order or an invoice, priced in one
-- place.
pub mod Laws
use markaz.Prelude.{
  ℕ, ◌+◌, Bool, true, false, ◌&&◌, Option, none, some, List, [], ◌∷◌, ◌==◌, if◌then◌else◌,
}
use markaz.Prelude.Int.{ℤ, pos, ◌+ℤ◌}
use markaz.Prelude.Sums.{sum_from}
use markaz.Prelude.Text.{Text, trim}
use markaz.Decimals.{Decimal, Arithmetic}
use markaz.Store.{
  Error, sales_error, empty_document, sales_item_not_found, tax_code_not_found,
  description_required, Result, ok, err, find,
}
use markaz.Purchasing.InvoiceMath.{ExpenseLineMath, expense_line_math}

pub record SalesLineInput : Type 0 where
  pub item_id : Option ℕ
  pub description : Option Text
  pub quantity : Decimal
  pub unit_price : Decimal
  pub tax_code_id : ℕ

pub record ResolvedSalesLine : Type 0 where
  pub item_id : Option ℕ
  pub description : Text
  pub quantity : Decimal
  pub unit_price : Decimal
  pub tax_code_id : ℕ
  pub tax_rate : Decimal
  pub net : Decimal
  pub tax : Decimal
  pub line_number : ℕ

pub record SalesTotals : Type 0 where
  pub net : Decimal
  pub tax : Decimal
  pub gross : Decimal

-- What is read of items and tax codes.
pub record Item : Type 0 where
  pub id : ℕ
  pub company_id : ℕ
  pub name : Text
  pub is_active : Bool

pub record TaxCode : Type 0 where
  pub id : ℕ
  pub company_id : ℕ
  pub rate : Decimal
  pub is_active : Bool

unfoldable pub totals_of : List ResolvedSalesLine → SalesTotals
totals_of lines =
    let net = sum_from (λ (l : ResolvedSalesLine). l.net) (pos 0) lines in
    let tax = sum_from (λ (l : ResolvedSalesLine). l.tax) (pos 0) lines in
    record { net = net; tax = tax; gross = net +ℤ tax }

abbrev pub find_item : ℕ → ℕ → List Item → Option Item
find_item company_id id = find (λ i. (i.id == id) && ((i.company_id == company_id) && i.is_active))

abbrev pub find_tax_code : ℕ → ℕ → List TaxCode → Option TaxCode
find_tax_code company_id id =
    find (λ t. (t.id == id) && ((t.company_id == company_id) && t.is_active))

-- The item of a line: none for a service line; an item that is not found is an error.
abbrev pub item_of : ℕ → List Item → Option ℕ → ℕ → Result (Option Item)
item_of company_id items none line_number = ok none
item_of company_id items (some id) line_number = elim (find_item company_id id items) [
  | some item ↦ ok (some item)
  | none ↦ err (sales_error sales_item_not_found (some line_number))
]

abbrev pub name_of : Option Item → Text
name_of none = []
name_of (some item) = item.name

abbrev pub trimmed : Option Text → Text
trimmed none = []
trimmed (some t) = trim t

abbrev pub or_text : Text → Text → Text
or_text [] other = other
or_text (c ∷ t) other = c ∷ t

-- `blankToNull(line.description) ?? item?.name`; the empty text stands for neither.
abbrev pub description_of : SalesLineInput → Option Item → Text
description_of line item = or_text (trimmed line.description) (name_of item)

abbrev pub id_of : Option Item → Option ℕ
id_of none = none
id_of (some item) = some item.id

abbrev pub checked_description : Text → ℕ → Result Text
checked_description [] line_number = err (sales_error description_required (some line_number))
checked_description (c ∷ t) line_number = ok (c ∷ t)

module _ (m : Arithmetic) (company_id : ℕ) (items : List Item) (tax_codes : List TaxCode) where
  abbrev pub resolved : SalesLineInput → ℕ → Option Item → TaxCode → Text → ResolvedSalesLine
  resolved line line_number item tax_code description =
      let math = expense_line_math m line.quantity line.unit_price tax_code.rate in
      record {
        item_id = id_of item;
        description = description;
        quantity = line.quantity;
        unit_price = line.unit_price;
        tax_code_id = tax_code.id;
        tax_rate = tax_code.rate;
        net = math.net;
        tax = math.tax;
        line_number = line_number;
      }

  -- The body of `lines.map`.
  unfoldable pub resolve_line : SalesLineInput → ℕ → Result ResolvedSalesLine
  resolve_line line line_number = elim (item_of company_id items line.item_id line_number) [
    | err e ↦ err e
    | ok item ↦ elim (find_tax_code company_id line.tax_code_id tax_codes) [
      | none ↦ err (sales_error tax_code_not_found (some line_number))
      | some tax_code ↦ elim (checked_description (description_of line item) line_number) [
        | err e ↦ err e
        | ok description ↦ ok (resolved line line_number item tax_code description)
      ]
    ]
  ]

  abbrev pub cons_result :
      ResolvedSalesLine → Result (List ResolvedSalesLine) → Result (List ResolvedSalesLine)
  cons_result l (ok ls) = ok (l ∷ ls)
  cons_result l (err e) = err e

  unfoldable pub resolve_from : ℕ → List SalesLineInput → Result (List ResolvedSalesLine)
  resolve_from line_number [] = ok []
  resolve_from line_number (line ∷ lines) =
      let rest = resolve_from (line_number + 1) lines in
      elim (resolve_line line line_number) [ err e ↦ err e | ok l ↦ cons_result l rest ]

  unfoldable pub resolve_sales_lines : List SalesLineInput → Result (List ResolvedSalesLine)
  resolve_sales_lines [] = err (sales_error empty_document none)
  resolve_sales_lines (line ∷ lines) = resolve_from 1 (line ∷ lines)
