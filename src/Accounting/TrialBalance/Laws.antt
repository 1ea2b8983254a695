-- ===== src/Accounting/TrialBalance/Laws.antt =====
-- What the trial balance shows.
use markaz.Prelude.{
  ℕ, ◌≡◌, refl, sym, ◌∙◌, ap, ◌⊎◌, inl, inr, true, ◌&&◌, List, [], ◌∷◌, false, arith, Bool-cases,
}
use markaz.Prelude.Int.{ℤ, pos, ◌+ℤ◌, ◌-ℤ◌, ◌≤ℤ◌, int_laws, eq_ℤ→eq}
use markaz.Prelude.Sums.{sum_by}
use markaz.Accounting.TrialBalance.{
  Sides, split_net_balance, PeriodRow, PeriodTrialBalanceLine, Totals, period_line, add_line,
  is_empty_row, build_loop, no_totals, is_even, build_period_trial_balance,
}

-- The net of a balance is kept, on one side only, and no side is negative.
pub split_net_balance_lem :
    (net : ℤ)
    → let s = split_net_balance net in
      (s.debit -ℤ s.credit ≡ net)
      × (pos 0 ≤ℤ s.debit)
      × (pos 0 ≤ℤ s.credit)
      × ((s.debit ≡ pos 0) ⊎ (s.credit ≡ pos 0))
unfolding split_net_balance ◌-ℤ◌
split_net_balance_lem net = ground arith

-- A figure stands on one side, and on neither below zero.
abbrev pub IsOneSided : Sides → Type 0
IsOneSided s = (pos 0 ≤ℤ s.debit) × (pos 0 ≤ℤ s.credit) × ((s.debit ≡ pos 0) ⊎ (s.credit ≡ pos 0))

-- A line's closing figure is its opening figure moved by the movement, and opening and closing are
-- one-sided.
abbrev pub IsConsistent : PeriodTrialBalanceLine → Type 0
IsConsistent l =
    (l.closing.debit -ℤ l.closing.credit
      ≡ l.opening.debit -ℤ l.opening.credit +ℤ l.movement.debit -ℤ l.movement.credit)
    × IsOneSided l.opening
    × IsOneSided l.closing

period_line-IsConsistent : (row : PeriodRow) → IsConsistent (period_line row)
unfolding period_line
period_line-IsConsistent row =
    let o = split_net_balance_lem row.opening_net in
    let c = split_net_balance_lem (row.opening_net +ℤ row.movement_debit -ℤ row.movement_credit) in
    (
      c.0 ∙ ap (λ n. n +ℤ row.movement_debit -ℤ row.movement_credit) (sym o.0),
      (o.1, o.2, o.3),
      (c.1, c.2, c.3),
    )

-- How far the totals are from even.
abbrev gap : (Totals → Sides) → Totals → ℤ
gap f t = (f t).debit -ℤ (f t).credit

empty_row :
    (row : PeriodRow)
    → is_empty_row row ≡ true
    → (row.opening_net ≡ pos 0) × (row.movement_debit ≡ pos 0) × (row.movement_credit ≡ pos 0)
empty_row row h = (
  eq_ℤ→eq row.opening_net (pos 0) (ground arith),
  eq_ℤ→eq row.movement_debit (pos 0) (ground arith),
  eq_ℤ→eq row.movement_credit (pos 0) (ground arith),
)

period_line_gaps :
    (row : PeriodRow)
    → let l = period_line row in
      (l.opening.debit -ℤ l.opening.credit ≡ row.opening_net)
      × (l.movement.debit -ℤ l.movement.credit ≡ row.movement_debit -ℤ row.movement_credit)
      × (l.closing.debit -ℤ l.closing.credit
          ≡ row.opening_net +ℤ row.movement_debit -ℤ row.movement_credit)
unfolding period_line
period_line_gaps row = (
  (split_net_balance_lem row.opening_net).0,
  refl,
  (split_net_balance_lem (row.opening_net +ℤ row.movement_debit -ℤ row.movement_credit)).0,
)

even_all :
    (t : Totals)
    → t.opening.debit ≡ t.opening.credit
    → t.movement.debit ≡ t.movement.credit
    → t.closing.debit ≡ t.closing.credit
    → is_even t.opening && (is_even t.movement && is_even t.closing) ≡ true
even_all t o m c = ground arith

-- The totals reached from `t` differ from those of `t` by the rows' own figures.
build_loop_gaps :
    (rows : List PeriodRow) (t : Totals)
    → let u = (build_loop rows t).1 in
      (gap (λ s. s.opening) u ≡ gap (λ s. s.opening) t +ℤ sum_by (λ r. r.opening_net) rows)
      × (gap (λ s. s.movement) u
          ≡ gap (λ s. s.movement) t
            +ℤ sum_by (λ r. r.movement_debit) rows
            -ℤ sum_by (λ r. r.movement_credit) rows)
      × (gap (λ s. s.closing) u
          ≡ gap (λ s. s.closing) t
            +ℤ sum_by (λ r. r.opening_net) rows
            +ℤ sum_by (λ r. r.movement_debit) rows
            -ℤ sum_by (λ r. r.movement_credit) rows)
unfolding build_loop
build_loop_gaps [] t = (omega int_laws, omega int_laws, omega int_laws)
build_loop_gaps (row ∷ rows) t = elim (Bool-cases (is_empty_row row)) [
  | inl empty ↦
      let (o, m, c) = build_loop_gaps rows t in
      let (a, x, y) = empty_row row empty in
      rw (empty, a, x, y) (omega int_laws, omega int_laws, omega int_laws)
  | inr shown ↦
      let (o, m, c) = build_loop_gaps rows (add_line t (period_line row)) in
      let (po, pm, pc) = period_line_gaps row in
      rw shown (omega int_laws, omega int_laws, omega int_laws)
]

-- A ledger whose opening balances cancel and whose movements are equal shows as balanced: all three
-- pairs of columns agree, whichever rows are left out as empty.
pub build_period_trial_balance_balanced :
    (rows : List PeriodRow) (from to : ℕ)
    → sum_by (λ r. r.opening_net) rows ≡ pos 0
    → sum_by (λ r. r.movement_debit) rows ≡ sum_by (λ r. r.movement_credit) rows
    → (build_period_trial_balance rows from to).is_balanced ≡ true
unfolding build_period_trial_balance
build_period_trial_balance_balanced rows from to o m =
    let (go, gm, gc) = build_loop_gaps rows no_totals in
    even_all (build_loop rows no_totals).1 (omega int_laws) (omega int_laws) (omega int_laws)

abbrev pub IsBlank : PeriodRow → Type 0
IsBlank row =
    (row.opening_net ≡ pos 0) × (row.movement_debit ≡ pos 0) × (row.movement_credit ≡ pos 0)

-- The line of an account, with its own figures.
abbrev pub IsLineOf : PeriodRow → PeriodTrialBalanceLine → Type 0
IsLineOf row l =
    (l.account_id ≡ row.account_id)
    × (l.account_code ≡ row.account_code)
    × (l.account_name ≡ row.account_name)
    × (l.account_type ≡ row.account_type)
    × (l.opening.debit -ℤ l.opening.credit ≡ row.opening_net)
    × (l.movement.debit ≡ row.movement_debit)
    × (l.movement.credit ≡ row.movement_credit)
    × IsConsistent l

-- A line for each row that is not blank, in order.
abbrev pub Shows : List PeriodRow → List PeriodTrialBalanceLine → Type 0
Shows [] lines = lines ≡ []
Shows (row ∷ rows) lines =
    (IsBlank row × Shows rows lines)
    ⊎ ((IsBlank row → ⊥)
        × ((l : PeriodTrialBalanceLine) × (rest : List PeriodTrialBalanceLine) × (lines ≡ l ∷ rest)
            × IsLineOf row l
            × Shows rows rest))

shown_row : (row : PeriodRow) → is_empty_row row ≡ false → IsBlank row → ⊥
shown_row row h (o, d, c) = absurd (ground arith)

period_line-IsLineOf : (row : PeriodRow) → IsLineOf row (period_line row)
unfolding period_line
period_line-IsLineOf row = (
  refl,
  refl,
  refl,
  refl,
  (split_net_balance_lem row.opening_net).0,
  refl,
  refl,
  period_line-IsConsistent row,
)

build_loop-Shows : (rows : List PeriodRow) (t : Totals) → Shows rows (build_loop rows t).0
unfolding build_loop
build_loop-Shows [] t = refl
build_loop-Shows (row ∷ rows) t = elim (Bool-cases (is_empty_row row)) [
  | inl empty ↦ inl (empty_row row empty, rw empty (build_loop-Shows rows t))
  | inr shown ↦
      let u = add_line t (period_line row) in
      inr (
        shown_row row shown,
        (
          period_line row,
          (build_loop rows u).0,
          rw shown refl,
          period_line-IsLineOf row,
          build_loop-Shows rows u,
        ),
      )
]

-- The report has one line for each account with an opening balance or a movement, in order, with the
-- account's own figures. In each line the closing figure is the opening figure plus the movement, and the
-- opening and the closing figure each stand on one side, none of their sides being negative.
pub build_period_trial_balance-Shows :
    (rows : List PeriodRow) (from to : ℕ)
    → Shows rows (build_period_trial_balance rows from to).lines
unfolding build_period_trial_balance
build_period_trial_balance-Shows rows from to = build_loop-Shows rows no_totals
