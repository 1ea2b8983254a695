-- ===== src/Accounting/TrialBalance.antt =====
-- packages/core/src/accounting/trial-balance.service.ts: the report built from one row for each account.
-- The amounts of a row are the integers that `toScaledBigInt` reads from the query's texts, and those of
-- a line the integers that `fromScaledBigInt` prints (DecimalSum).
pub mod Laws
use markaz.Prelude.{ℕ, ◌≡◌, Bool, true, false, ◌&&◌, List, [], ◌∷◌, arith, ◌==◌, if◌then◌else◌}
use markaz.Prelude.Int.{ℤ, pos, ◌+ℤ◌, ◌-ℤ◌, leb_ℤ, eq_ℤ}
use markaz.Prelude.Text.{Text}
use markaz.Store.{AccountType}

-- A debit figure and a credit figure.
pub record Sides : Type 0 where
  pub debit : ℤ
  pub credit : ℤ

unfoldable pub split_net_balance : ℤ → Sides
split_net_balance net =
    if leb_ℤ (pos 0) net
    then record { debit = net; credit = pos 0 }
    else record { debit = pos 0; credit = pos 0 -ℤ net }

pub record PeriodRow : Type 0 where
  pub account_id : ℕ
  pub account_code : Text
  pub account_name : Text
  pub account_type : AccountType
  pub opening_net : ℤ
  pub movement_debit : ℤ
  pub movement_credit : ℤ

pub record PeriodTrialBalanceLine : Type 0 where
  pub account_id : ℕ
  pub account_code : Text
  pub account_name : Text
  pub account_type : AccountType
  pub opening : Sides
  pub movement : Sides
  pub closing : Sides

pub record Totals : Type 0 where
  pub opening : Sides
  pub movement : Sides
  pub closing : Sides

pub record PeriodTrialBalanceResult : Type 0 where
  pub from : ℕ
  pub to : ℕ
  pub lines : List PeriodTrialBalanceLine
  pub totals : Totals
  pub is_balanced : Bool

abbrev pub no_sides : Sides
no_sides = record { debit = pos 0; credit = pos 0 }

abbrev pub add_sides : Sides → Sides → Sides
add_sides a b = record { debit = a.debit +ℤ b.debit; credit = a.credit +ℤ b.credit }

-- `continue` for an account with nothing to show.
abbrev pub is_empty_row : PeriodRow → Bool
is_empty_row row =
    eq_ℤ row.opening_net (pos 0)
    && (eq_ℤ row.movement_debit (pos 0) && eq_ℤ row.movement_credit (pos 0))

unfoldable pub period_line : PeriodRow → PeriodTrialBalanceLine
unfolding split_net_balance
period_line row = record {
  account_id = row.account_id;
  account_code = row.account_code;
  account_name = row.account_name;
  account_type = row.account_type;
  opening = split_net_balance row.opening_net;
  movement = record { debit = row.movement_debit; credit = row.movement_credit };
  closing = split_net_balance (row.opening_net +ℤ row.movement_debit -ℤ row.movement_credit);
}

abbrev pub add_line : Totals → PeriodTrialBalanceLine → Totals
add_line t l = record {
  opening = add_sides t.opening l.opening;
  movement = add_sides t.movement l.movement;
  closing = add_sides t.closing l.closing;
}

-- The loop: the lines pushed, and the totals.
pub build_loop : List PeriodRow → Totals → List PeriodTrialBalanceLine × Totals
build_loop [] total = ([], total)
build_loop (row ∷ rows) total =
    let skipped = build_loop rows total in
    let (lines, total') = build_loop rows (add_line total (period_line row)) in
    if is_empty_row row then skipped else (period_line row ∷ lines, total')

abbrev pub no_totals : Totals
no_totals = record { opening = no_sides; movement = no_sides; closing = no_sides }

abbrev pub is_even : Sides → Bool
is_even s = eq_ℤ s.debit s.credit

pub build_period_trial_balance : List PeriodRow → ℕ → ℕ → PeriodTrialBalanceResult
unfolding build_loop
build_period_trial_balance rows from to =
    let (lines, total) = build_loop rows no_totals in
    record {
      from = from;
      to = to;
      lines = lines;
      totals = total;
      is_balanced = is_even total.opening && (is_even total.movement && is_even total.closing);
    }
