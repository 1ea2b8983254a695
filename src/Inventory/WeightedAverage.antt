-- ===== src/Inventory/WeightedAverage.antt =====
-- packages/core/src/inventory/weighted-average.util.ts: the quantity and the value of an item in a
-- warehouse, and what a receipt, an issue and a count do to them. The strings of the source are read as
-- decimals before the call.
pub mod Laws
use markaz.Prelude.{ℕ, ◌≡◌, Bool, true, false, not, arith, if◌then◌else◌}
use markaz.Prelude.Int.{ℤ, pos, ◌+ℤ◌, ◌-ℤ◌, eq_ℤ, ltb_ℤ}
use markaz.Decimals.{Decimal, Arithmetic, greater_than, less_than, min_ℤ, max_ℤ}

pub record StockState : Type 0 where
  pub quantity : Decimal
  pub value : Decimal

pub data StockError : Type 0 where
  -- RangeError and InsufficientStockError.
  out_of_range insufficient_stock : StockError

pub data Outcome (A : Type 0) : Type 0 where
  done : A → Outcome A
  failed : StockError → Outcome A

pub record IssueResult : Type 0 where
  pub state : StockState
  pub unit_cost : Decimal
  pub value : Decimal

pub record CountAdjustmentResult : Type 0 where
  pub state : StockState
  pub variance : Decimal
  pub variance_value : Decimal

module _ (m : Arithmetic) where
  open m use {times, divided_by, round4}

  unfoldable pub average_unit_cost : StockState → Decimal
  average_unit_cost state =
      if eq_ℤ state.quantity (pos 0) then pos 0 else divided_by state.value state.quantity

  unfoldable pub apply_receipt : StockState → Decimal → Decimal → Outcome StockState
  apply_receipt state quantity unit_cost =
      if not (greater_than quantity (pos 0))
      then failed out_of_range
      else if less_than unit_cost (pos 0)
      then failed out_of_range
      else done (record {
        quantity = state.quantity +ℤ quantity;
        value = state.value +ℤ round4 (times quantity unit_cost);
      })

  -- The value that leaves with an issue: all of it with the last quantity, else its share, never more
  -- than there is.
  abbrev pub issued_value : StockState → Decimal → Decimal
  issued_value state quantity =
      if eq_ℤ (state.quantity -ℤ quantity) (pos 0)
      then state.value
      else min_ℤ state.value (round4 (times quantity (average_unit_cost state)))

  abbrev pub issue : StockState → Decimal → IssueResult
  issue state quantity = record {
    state = record {
      quantity = state.quantity -ℤ quantity;
      value = max_ℤ (pos 0) (state.value -ℤ issued_value state quantity);
    };
    unit_cost =
        if eq_ℤ quantity (pos 0)
        then pos 0
        else round4 (divided_by (issued_value state quantity) quantity);
    value = issued_value state quantity;
  }

  unfoldable pub apply_issue : StockState → Decimal → Outcome IssueResult
  apply_issue state quantity =
      if not (greater_than quantity (pos 0))
      then failed out_of_range
      else if greater_than quantity state.quantity
      then failed insufficient_stock
      else done (issue state quantity)

  abbrev pub count : StockState → Decimal → Decimal → CountAdjustmentResult
  count state counted unit_cost =
      let variance = counted -ℤ state.quantity in
      let variance_value = round4 (times variance unit_cost) in
      record {
        state = record {
          quantity = counted;
          value = max_ℤ (pos 0) (state.value +ℤ variance_value);
        };
        variance = variance;
        variance_value = variance_value;
      }

  unfoldable pub apply_count_adjustment :
      StockState → Decimal → Decimal → Outcome CountAdjustmentResult
  apply_count_adjustment state counted unit_cost =
      if less_than counted (pos 0)
      then failed out_of_range
      else if less_than unit_cost (pos 0)
      then failed out_of_range
      else done (count state counted unit_cost)
