-- ===== src/Inventory/WeightedAverage/Laws.antt =====
-- The valuation keeps its books: quantities and values never go below zero, and an issue takes from the
-- value exactly what it reports.
use markaz.Prelude.{◌≡◌, refl, ◌∙◌, ◌⊎◌, inl, inr, true, false, arith, Bool-cases}
use markaz.Prelude.Int.{ℤ, pos, ◌+ℤ◌, ◌-ℤ◌, ◌≤ℤ◌, int_laws, eq_ℤ, ltb_ℤ}
use markaz.Decimals.{Decimal, Arithmetic, IsArithmetic, min_ℤ, max_ℤ}
use markaz.Inventory.WeightedAverage.{
  StockState, StockError, out_of_range, Outcome, done, failed, IssueResult, CountAdjustmentResult,
  average_unit_cost, apply_receipt, issued_value, issue, apply_issue, count, apply_count_adjustment,
}

-- What item_warehouse_stock's CHECKs ask, and no value without quantity.
pub record IsStock (s : StockState) : Type 0 where
  pub quantity_nonneg : pos 0 ≤ℤ s.quantity
  pub value_nonneg : pos 0 ≤ℤ s.value
  pub empty_value : s.quantity ≡ pos 0 → s.value ≡ pos 0

pub Outcome-cases :
    {A : Type 0} (o : Outcome A) → ((a : A) × (o ≡ done a)) ⊎ ((e : StockError) × (o ≡ failed e))
Outcome-cases (done a) = inl (a, refl)
Outcome-cases (failed e) = inr (e, refl)

min_ℤ_bounds : (a b : ℤ) → pos 0 ≤ℤ a → pos 0 ≤ℤ b → (pos 0 ≤ℤ min_ℤ a b) × (min_ℤ a b ≤ℤ a)
min_ℤ_bounds a b h k = ground arith

max_ℤ_nonneg : (a : ℤ) → pos 0 ≤ℤ max_ℤ (pos 0) a
max_ℤ_nonneg a = ground arith

max_ℤ_eq : (a : ℤ) → pos 0 ≤ℤ a → max_ℤ (pos 0) a ≡ a
max_ℤ_eq a h = elim (Bool-cases (ltb_ℤ (pos 0) a)) [
  | inl above ↦ rw above refl
  | inr zero_or_below ↦ rw zero_or_below (ground arith)
]

max_ℤ_floor : (a : ℤ) → a ≤ℤ pos 0 → max_ℤ (pos 0) a ≡ pos 0
max_ℤ_floor a h = ground arith

no_rest : (a b : ℤ) → b ≡ a → a -ℤ b ≡ pos 0
no_rest a b e = omega int_laws

module _ (m : Arithmetic) (laws : IsArithmetic m) (state : StockState) (h : IsStock state) where
  average_unit_cost_nonneg : pos 0 ≤ℤ average_unit_cost m state
  unfolding average_unit_cost
  average_unit_cost_nonneg = elim (Bool-cases (eq_ℤ state.quantity (pos 0))) [
    | inl empty ↦ rw empty (omega arith)
    | inr some_left ↦
        rw some_left
          (laws.divided_by_nonneg state.value state.quantity h.value_nonneg h.quantity_nonneg)
  ]

  issued_value_bounds :
      (quantity : Decimal)
      → pos 0 ≤ℤ quantity
      → (pos 0 ≤ℤ issued_value m state quantity) × (issued_value m state quantity ≤ℤ state.value)
  issued_value_bounds quantity q =
      let cost = m.times quantity (average_unit_cost m state) in
      let share = m.round4 cost in
      let share_nonneg : pos 0 ≤ℤ share =
        laws.round4_nonneg cost
          (laws.times_nonneg quantity (average_unit_cost m state) q average_unit_cost_nonneg) in
      elim (Bool-cases (eq_ℤ (state.quantity -ℤ quantity) (pos 0))) [
        | inl all ↦ rw all (h.value_nonneg, omega arith)
        | inr part ↦ rw part (min_ℤ_bounds state.value share h.value_nonneg share_nonneg)
      ]

  last_issue :
      (quantity : Decimal)
      → state.quantity -ℤ quantity ≡ pos 0
      → issued_value m state quantity ≡ state.value
  last_issue quantity empty =
      let all : eq_ℤ (state.quantity -ℤ quantity) (pos 0) ≡ true = rw empty refl in rw all refl

  -- An issue from stock that is in order leaves it in order; quantity and value fall by exactly what the
  -- issue reports, and the last quantity takes all the value with it.
  pub apply_issue_lem :
      (quantity : Decimal) (r : IssueResult)
      → apply_issue m state quantity ≡ done r
      → IsStock r.state
        × (r.state.quantity +ℤ quantity ≡ state.quantity)
        × (r.state.value +ℤ r.value ≡ state.value)
        × (r.state.quantity ≡ pos 0 → r.value ≡ state.value)
  unfolding apply_issue
  apply_issue_lem quantity r e =
      let q : pos 1 ≤ℤ quantity = ground arith in
      let enough : quantity ≤ℤ state.quantity = ground arith in
      let same : r ≡ issue m state quantity = ground arith in
      let v = issued_value m state quantity in
      let (low, high) = issued_value_bounds quantity (omega arith) in
      let kept : max_ℤ (pos 0) (state.value -ℤ v) ≡ state.value -ℤ v =
        max_ℤ_eq (state.value -ℤ v) (omega int_laws) in
      rw same (
        record {
          quantity_nonneg = omega int_laws;
          value_nonneg = max_ℤ_nonneg (state.value -ℤ v);
          empty_value = λ empty. kept ∙ no_rest state.value v (last_issue quantity empty);
        },
        omega int_laws,
        rw kept (omega int_laws),
        last_issue quantity,
      )

  -- A receipt into stock that is in order leaves it in order, with the quantity added and the value of
  -- the goods, rounded once.
  pub apply_receipt_lem :
      (quantity unit_cost : Decimal) (s : StockState)
      → apply_receipt m state quantity unit_cost ≡ done s
      → IsStock s
        × (s.quantity ≡ state.quantity +ℤ quantity)
        × (s.value ≡ state.value +ℤ m.round4 (m.times quantity unit_cost))
  unfolding apply_receipt
  apply_receipt_lem quantity unit_cost s e =
      let positive : ltb_ℤ (pos 0) quantity ≡ true = ground arith in
      let cost_ok : ltb_ℤ unit_cost (pos 0) ≡ false = ground arith in
      let q : pos 1 ≤ℤ quantity = ground arith in
      let c : pos 0 ≤ℤ unit_cost = ground arith in
      let added =
        laws.round4_nonneg (m.times quantity unit_cost)
          (laws.times_nonneg quantity unit_cost (omega arith) c) in
      let same : s ≡ record {
        quantity = state.quantity +ℤ quantity;
        value = state.value +ℤ m.round4 (m.times quantity unit_cost);
      } =
        ground arith in
      rw same (
        record {
          quantity_nonneg = omega (int_laws, h.quantity_nonneg);
          value_nonneg = omega (int_laws, h.value_nonneg);
          empty_value = λ empty. absurd (omega (int_laws, h.quantity_nonneg));
        },
        refl,
        refl,
      )

-- The value after a count: it moves by the value of the variance, and where that would take more than there
-- is, it is zero.
abbrev pub IsAdjusted : Decimal → Decimal → Decimal → Type 0
IsAdjusted before variance after =
    (pos 0 ≤ℤ after)
    × (before +ℤ variance ≤ℤ after)
    × ((after ≡ before +ℤ variance) ⊎ (after ≡ pos 0))

max_ℤ-IsAdjusted :
    (before variance : Decimal) → IsAdjusted before variance (max_ℤ (pos 0) (before +ℤ variance))
max_ℤ-IsAdjusted before variance =
    let moved = before +ℤ variance in
    elim (Bool-cases (ltb_ℤ (pos 0) moved)) [
      | inl above ↦ rw above (ground arith, omega arith, inl refl)
      | inr zero_or_below ↦ rw zero_or_below (omega arith, ground arith, inr refl)
    ]

below_zero : (a : ℤ) → ltb_ℤ a (pos 0) ≡ true → a ≤ℤ pos 0 -ℤ pos 1
unfolding ◌-ℤ◌
below_zero a h = ground arith

-- A count is refused exactly where the quantity counted or the cost is negative. Else the quantity is what
-- was counted, the variance is the difference from what was there, its value is the variance at the cost,
-- rounded once, and the value of the stock moves by just that, except that it stops at zero where the
-- variance would take more than there is.
pub apply_count_adjustment_lem :
    (m : Arithmetic) (state : StockState) (counted unit_cost : Decimal)
    → (((counted ≤ℤ pos 0 -ℤ pos 1) ⊎ (unit_cost ≤ℤ pos 0 -ℤ pos 1))
        × (apply_count_adjustment m state counted unit_cost ≡ failed out_of_range))
      ⊎ ((pos 0 ≤ℤ counted)
          × (pos 0 ≤ℤ unit_cost)
          × ((r : CountAdjustmentResult) × (apply_count_adjustment m state counted unit_cost
                ≡ done r)
              × (r.state.quantity ≡ counted)
              × (state.quantity +ℤ r.variance ≡ counted)
              × (r.variance_value ≡ m.round4 (m.times (counted -ℤ state.quantity) unit_cost))
              × IsAdjusted state.value r.variance_value r.state.value))
unfolding apply_count_adjustment
apply_count_adjustment_lem m state counted unit_cost = elim (Bool-cases (ltb_ℤ counted (pos 0))) [
  | inl below ↦ rw below (inl (inl (below_zero counted below), refl))
  | inr fine ↦ elim (Bool-cases (ltb_ℤ unit_cost (pos 0))) [
    | inl cheap ↦ rw (fine, cheap) (inl (inr (below_zero unit_cost cheap), refl))
    | inr cost ↦
        rw (fine, cost)
          (inr (
            ground arith,
            ground arith,
            (
              count m state counted unit_cost,
              refl,
              refl,
              omega int_laws,
              refl,
              max_ℤ-IsAdjusted state.value
                  (m.round4 (m.times (counted -ℤ state.quantity) unit_cost)),
            ),
          ))
  ]
]
