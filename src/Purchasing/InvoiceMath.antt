-- ===== src/Purchasing/InvoiceMath.antt =====
-- packages/core/src/purchasing/supplier-invoice.util.ts: the arithmetic of a supplier invoice.
use markaz.Prelude.{◌*◌, ◌≡◌, List, [], ◌∷◌, map}
use markaz.Prelude.Int.{pos, ◌+ℤ◌, ◌-ℤ◌, int_laws}
use markaz.Prelude.Sums.{sum_by}
use markaz.Decimals.{Decimal, Arithmetic}

pub record PoLineMath : Type 0 where
  pub net : Decimal
  pub order_value : Decimal
  pub price_variance : Decimal
  pub tax : Decimal

pub record ExpenseLineMath : Type 0 where
  pub net : Decimal
  pub tax : Decimal

pub record InvoiceTotals : Type 0 where
  pub net : Decimal
  pub tax : Decimal
  pub gross : Decimal
  pub grni_debit : Decimal
  pub price_variance : Decimal
  pub expense_net : Decimal

module _ (m : Arithmetic) where
  open m use {times, divided_by, round4}

  -- 100 as a decimal.
  abbrev pub hundred : Decimal
  hundred = pos (1000000 * m.units_per_4)

  unfoldable pub tax_on : Decimal → Decimal → Decimal
  tax_on net rate_percent = round4 (divided_by (times net rate_percent) hundred)

  unfoldable pub po_line_math : Decimal → Decimal → Decimal → Decimal → PoLineMath
  po_line_math quantity invoice_price order_price rate_percent =
      let net = round4 (times quantity invoice_price) in
      let order_value = round4 (times quantity order_price) in
      record {
        net = net;
        order_value = order_value;
        price_variance = net -ℤ order_value;
        tax = tax_on net rate_percent;
      }

  unfoldable pub expense_line_math : Decimal → Decimal → Decimal → ExpenseLineMath
  expense_line_math quantity unit_price rate_percent =
      let net = round4 (times quantity unit_price) in
      record { net = net; tax = tax_on net rate_percent }

abbrev pub no_totals : InvoiceTotals
no_totals = record {
  net = pos 0;
  tax = pos 0;
  gross = pos 0;
  grni_debit = pos 0;
  price_variance = pos 0;
  expense_net = pos 0;
}

-- The bodies of the two loops; `gross` is set at the end.
abbrev pub add_po_line : InvoiceTotals → PoLineMath → InvoiceTotals
add_po_line t l = record t {
  net = t.net +ℤ l.net;
  tax = t.tax +ℤ l.tax;
  grni_debit = t.grni_debit +ℤ l.order_value;
  price_variance = t.price_variance +ℤ l.price_variance;
}

abbrev pub add_expense_line : InvoiceTotals → ExpenseLineMath → InvoiceTotals
add_expense_line t l = record t {
  net = t.net +ℤ l.net;
  tax = t.tax +ℤ l.tax;
  expense_net = t.expense_net +ℤ l.net;
}

abbrev pub add_po_lines : InvoiceTotals → List PoLineMath → InvoiceTotals
add_po_lines t [] = t
add_po_lines t (l ∷ ls) = add_po_lines (add_po_line t l) ls

abbrev pub add_expense_lines : InvoiceTotals → List ExpenseLineMath → InvoiceTotals
add_expense_lines t [] = t
add_expense_lines t (l ∷ ls) = add_expense_lines (add_expense_line t l) ls

unfoldable pub invoice_totals : List PoLineMath → List ExpenseLineMath → InvoiceTotals
invoice_totals po_lines expense_lines =
    let t = add_expense_lines (add_po_lines no_totals po_lines) expense_lines in
    record t { gross = t.net +ℤ t.tax }

-- What is read of the lines of an invoice.
pub record OrderedGoods : Type 0 where
  pub quantity : Decimal
  pub invoice_price : Decimal
  pub order_price : Decimal
  pub rate_percent : Decimal

pub record Charge : Type 0 where
  pub quantity : Decimal
  pub unit_price : Decimal
  pub rate_percent : Decimal

module _ (m : Arithmetic) where
  open m use {times, divided_by, round4}

  abbrev pub goods_math : OrderedGoods → PoLineMath
  goods_math l = po_line_math m l.quantity l.invoice_price l.order_price l.rate_percent

  abbrev pub charge_math : Charge → ExpenseLineMath
  charge_math l = expense_line_math m l.quantity l.unit_price l.rate_percent

  -- A quantity at a price, and a percentage of an amount, each rounded once.
  abbrev pub amount_of : Decimal → Decimal → Decimal
  amount_of quantity price = round4 (times quantity price)

  abbrev pub percent_of : Decimal → Decimal → Decimal
  percent_of rate amount = round4 (divided_by (times amount rate) (hundred m))

  add_po_lines_lem :
      (t : InvoiceTotals) (ls : List OrderedGoods)
      → let u = add_po_lines t (map goods_math ls) in
        (u.grni_debit ≡ t.grni_debit +ℤ sum_by (λ l. amount_of l.quantity l.order_price) ls)
        × (u.price_variance
            ≡ t.price_variance
              +ℤ sum_by
                  (λ l. amount_of l.quantity l.invoice_price -ℤ amount_of l.quantity l.order_price)
                  ls)
        × (u.tax
            ≡ t.tax
              +ℤ sum_by (λ l. percent_of l.rate_percent (amount_of l.quantity l.invoice_price)) ls)
        × (u.net -ℤ u.grni_debit -ℤ u.price_variance ≡ t.net -ℤ t.grni_debit -ℤ t.price_variance)
        × (u.expense_net ≡ t.expense_net)
  unfolding po_line_math tax_on
  add_po_lines_lem t [] =
      (omega int_laws, omega int_laws, omega int_laws, omega int_laws, omega int_laws)
  add_po_lines_lem t (l ∷ ls) =
      let (goods, variance, tax, net, expense) =
        add_po_lines_lem (add_po_line t (goods_math l)) ls in
      (omega int_laws, omega int_laws, omega int_laws, omega int_laws, omega int_laws)

  add_expense_lines_lem :
      (t : InvoiceTotals) (ls : List Charge)
      → let u = add_expense_lines t (map charge_math ls) in
        (u.expense_net ≡ t.expense_net +ℤ sum_by (λ l. amount_of l.quantity l.unit_price) ls)
        × (u.tax
            ≡ t.tax
              +ℤ sum_by (λ l. percent_of l.rate_percent (amount_of l.quantity l.unit_price)) ls)
        × (u.net -ℤ u.expense_net ≡ t.net -ℤ t.expense_net)
        × (u.grni_debit ≡ t.grni_debit)
        × (u.price_variance ≡ t.price_variance)
  unfolding expense_line_math tax_on
  add_expense_lines_lem t [] =
      (omega int_laws, omega int_laws, omega int_laws, omega int_laws, omega int_laws)
  add_expense_lines_lem t (l ∷ ls) =
      let (expense, tax, net, goods, variance) =
        add_expense_lines_lem (add_expense_line t (charge_math l)) ls in
      (omega int_laws, omega int_laws, omega int_laws, omega int_laws, omega int_laws)

  -- The goods of an invoice are taken at the order's prices, and what the supplier charges above them is
  -- the price variance, line by line, each amount and each tax rounded once. These four sums (goods, price
  -- variance, charges without goods, tax) make exactly the gross, and without the tax the net: no rounding
  -- is left over, whatever the quantities, prices and rates.
  pub invoice_totals_balance :
      (goods : List OrderedGoods) (charges : List Charge)
      → let t = invoice_totals (map goods_math goods) (map charge_math charges) in
        (t.grni_debit ≡ sum_by (λ l. amount_of l.quantity l.order_price) goods)
        × (t.price_variance
            ≡ sum_by
                (λ l. amount_of l.quantity l.invoice_price -ℤ amount_of l.quantity l.order_price)
                goods)
        × (t.expense_net ≡ sum_by (λ l. amount_of l.quantity l.unit_price) charges)
        × (t.tax
            ≡ sum_by (λ l. percent_of l.rate_percent (amount_of l.quantity l.invoice_price)) goods
              +ℤ sum_by
                  (λ l. percent_of l.rate_percent (amount_of l.quantity l.unit_price))
                  charges)
        × (t.net ≡ t.grni_debit +ℤ t.price_variance +ℤ t.expense_net)
        × (t.gross ≡ t.grni_debit +ℤ t.price_variance +ℤ t.expense_net +ℤ t.tax)
  unfolding invoice_totals
  invoice_totals_balance goods charges =
      let (goods_eq, variance, tax, net, expense) = add_po_lines_lem no_totals goods in
      let (expense', tax', net', goods', variance') =
        add_expense_lines_lem (add_po_lines no_totals (map goods_math goods)) charges in
      (
        omega int_laws,
        omega int_laws,
        omega int_laws,
        omega int_laws,
        omega int_laws,
        omega int_laws,
      )
