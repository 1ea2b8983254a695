-- ===== src/Tests/Documents.antt =====
-- Stock, invoices and pay.
use markaz.Prelude.{◌≡◌, ◌≢◌, refl, ◌⊎◌, true, false, none, some, [], ◌∷◌, map, arith}
use markaz.Prelude.Int.{pos, ◌+ℤ◌, ◌-ℤ◌, ◌≤ℤ◌}
use markaz.Prelude.Sums.{sum_by}
use markaz.Decimals.{one}
use markaz.Inventory.WeightedAverage.{
  StockState, done, failed, out_of_range, IssueResult, CountAdjustmentResult, average_unit_cost,
  apply_receipt, issue, apply_issue, apply_count_adjustment,
}
use markaz.Inventory.WeightedAverage.Laws.{
  IsStock, apply_issue_lem, apply_receipt_lem, IsAdjusted, apply_count_adjustment_lem,
}
use markaz.Purchasing.InvoiceMath.{
  OrderedGoods, Charge, goods_math, charge_math, amount_of, percent_of, invoice_totals,
  invoice_totals_balance,
}
use markaz.Hr.Gosi.{
  Date, GosiContribution, GosiParams, compute_gosi_contribution, contribution_base_cap,
}
use markaz.Hr.Eosb.{
  termination, resignation, years_of_service_between, whole_years,
  compute_end_of_service_settlement,
}
use markaz.Hr.Eosb.Laws.{compute_end_of_service_settlement_lem}
use markaz.Hr.Gosi.Laws.{compute_gosi_contribution_bounds}
use markaz.Hr.Advances.{
  Advance, advance_balance, outstanding_advance_total, outstanding_advance_total_covers,
}
use markaz.Tests.FourPlaces.{four_places, four_places-IsArithmetic}

-- Ten units worth 100.
abbrev stock : StockState
stock = record { quantity = pos 100000; value = pos 1000000 }

stock-IsStock : IsStock stock
stock-IsStock = record {
  quantity_nonneg = omega arith;
  value_nonneg = omega arith;
  empty_value = λ e. absurd (ground arith);
}

abbrev three_out : IssueResult
three_out = issue four_places stock (pos 30000)

apply_issue_lem_example :
    IsStock three_out.state
    × (three_out.state.quantity +ℤ pos 30000 ≡ pos 100000)
    × (three_out.state.value +ℤ three_out.value ≡ pos 1000000)
    × (three_out.state.quantity ≡ pos 0 → three_out.value ≡ pos 1000000)
unfolding apply_issue average_unit_cost
apply_issue_lem_example =
    apply_issue_lem four_places four_places-IsArithmetic stock stock-IsStock (pos 30000) three_out
      refl

abbrev five_in : StockState
five_in = record { quantity = pos 150000; value = pos 1600000 }

apply_receipt_lem_example :
    IsStock five_in
    × (pos 150000 ≡ pos 100000 +ℤ pos 50000)
    × (pos 1600000 ≡ pos 1000000 +ℤ pos 600000)
unfolding apply_receipt ◌+ℤ◌
apply_receipt_lem_example =
    apply_receipt_lem four_places four_places-IsArithmetic stock stock-IsStock (pos 50000)
      (pos 120000) five_in refl

-- Eight counted where ten were, at a cost of 60: more than the value there is.
apply_count_adjustment_lem_example :
    (((pos 80000 ≤ℤ pos 0 -ℤ pos 1) ⊎ (pos 600000 ≤ℤ pos 0 -ℤ pos 1))
      × (apply_count_adjustment four_places stock (pos 80000) (pos 600000) ≡ failed out_of_range))
    ⊎ ((pos 0 ≤ℤ pos 80000)
        × (pos 0 ≤ℤ pos 600000)
        × ((r : CountAdjustmentResult) × (apply_count_adjustment four_places stock
                (pos 80000)
                (pos 600000)
              ≡ done r)
            × (r.state.quantity ≡ pos 80000)
            × (pos 100000 +ℤ r.variance ≡ pos 80000)
            × (r.variance_value
                ≡ four_places.round4 (four_places.times (pos 80000 -ℤ pos 100000) (pos 600000)))
            × IsAdjusted (pos 1000000) r.variance_value r.state.value))
apply_count_adjustment_lem_example =
    apply_count_adjustment_lem four_places stock (pos 80000) (pos 600000)

abbrev bought : OrderedGoods
bought = record {
  quantity = pos 20000;
  invoice_price = pos 110000;
  order_price = pos 100000;
  rate_percent = pos 150000;
}

abbrev freight : Charge
freight = record { quantity = pos 10000; unit_price = pos 50000; rate_percent = pos 150000 }

invoice_totals_balance_example :
    let t =
      invoice_totals
        (map (goods_math four_places) (bought ∷ []))
        (map (charge_math four_places) (freight ∷ [])) in
    (t.grni_debit ≡ sum_by (λ l. amount_of four_places l.quantity l.order_price) (bought ∷ []))
    × (t.price_variance
        ≡ sum_by
            (λ l.
              amount_of four_places l.quantity l.invoice_price
              -ℤ amount_of four_places l.quantity l.order_price)
            (bought ∷ []))
    × (t.expense_net ≡ sum_by (λ l. amount_of four_places l.quantity l.unit_price) (freight ∷ []))
    × (t.tax
        ≡ sum_by
            (λ l.
              percent_of four_places l.rate_percent
                (amount_of four_places l.quantity l.invoice_price))
            (bought ∷ [])
          +ℤ sum_by
              (λ l.
                percent_of four_places l.rate_percent
                  (amount_of four_places l.quantity l.unit_price))
              (freight ∷ []))
    × (t.net ≡ t.grni_debit +ℤ t.price_variance +ℤ t.expense_net)
    × (t.gross ≡ t.grni_debit +ℤ t.price_variance +ℤ t.expense_net +ℤ t.tax)
invoice_totals_balance_example = invoice_totals_balance four_places (bought ∷ []) (freight ∷ [])

abbrev january : Date
january = record { year = 2026; month = 0; day = 1 }

abbrev october : Date
october = record { year = 2027; month = 9; day = 15 }

abbrev employee : GosiParams
employee = record {
  basic_salary = pos 80000000;
  housing_allowance = pos 20000000;
  is_saudi = true;
  gosi_legacy_track = false;
  as_of = january;
}

compute_gosi_contribution_bounds_example :
    ((false ≡ true) × (compute_gosi_contribution four_places employee ≡ none))
    ⊎ ((g : GosiContribution) × (false ≡ false)
        × (compute_gosi_contribution four_places employee ≡ some g)
        × (pos 0 ≤ℤ g.contribution_base)
        × (g.contribution_base ≤ℤ contribution_base_cap four_places)
        × (pos 0 ≤ℤ g.employee_share)
        × (g.employee_share ≤ℤ g.employer_share)
        × (true ≡ false → g.employee_share ≡ pos 0))
compute_gosi_contribution_bounds_example =
    compute_gosi_contribution_bounds four_places four_places-IsArithmetic employee (omega arith)
      (omega arith)

abbrev advance : Advance
advance = record {
  company_id = 7;
  employee_id = 3;
  amount = pos 3000;
  deductions = pos 500 ∷ pos 500 ∷ [];
  repayments = pos 250 ∷ [];
}

outstanding_advance_total_covers_example :
    (pos 0 ≤ℤ outstanding_advance_total (advance ∷ []))
    × ((advance_balance advance).remaining ≤ℤ outstanding_advance_total (advance ∷ []))
outstanding_advance_total_covers_example = outstanding_advance_total_covers [] [] advance

abbrev hired_on : Date
hired_on = record { year = 2019; month = 2; day = 15 }

abbrev left_on : Date
left_on = record { year = 2026; month = 2; day = 15 }

seven_years : years_of_service_between four_places hired_on left_on ≡ pos 70000
unfolding years_of_service_between whole_years ◌+ℤ◌
seven_years = refl

compute_end_of_service_settlement_lem_example :
    let r =
      compute_end_of_service_settlement four_places (pos 50000000) hired_on left_on termination in
    (pos 0 ≤ℤ r.years_of_service)
    × (pos 0 ≤ℤ r.gross_entitlement)
    × (pos 0 ≤ℤ r.entitlement_fraction)
    × (pos 0 ≤ℤ r.net_entitlement)
    × (termination ≢ resignation
        → (r.entitlement_fraction ≡ four_places.round4 (one four_places))
          × (r.net_entitlement ≡ r.gross_entitlement))
compute_end_of_service_settlement_lem_example =
    compute_end_of_service_settlement_lem four_places four_places-IsArithmetic (pos 50000000)
      hired_on left_on termination (omega arith)
