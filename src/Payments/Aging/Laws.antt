-- ===== src/Payments/Aging/Laws.antt =====
-- The ageing report accounts for every open amount once.
use markaz.Prelude.{ℕ, ◌≡◌, ◌≢◌, refl, inl, inr, false, List, [], ◌∷◌, arith, All, Bool-cases, ◌==◌}
use markaz.Prelude.Int.{ℤ, pos, ◌+ℤ◌, ◌-ℤ◌, ◌≤ℤ◌, int_laws, eq_ℤ, eq_ℤ→eq, leb_ℤ}
use markaz.Prelude.Sums.{sum_by}
use markaz.Decimals.{Decimal}
use markaz.Payments.Outstanding.{OutstandingInvoice}
use markaz.Payments.Aging.{
  AgingBucket, current, days_1_to_30, days_31_to_60, days_61_to_90, over_90, bucket_for,
  days_past_due, due_day, Amounts, zero_amounts, add_to, total_of, slot, add_invoices,
  set_on_account, add_unallocated, add_amounts, add_totals, report_rows, report_total,
}
use markaz.Payments.Aging.Slots.{
  all_totals, add_to_total, slot_total, on_account_of, slot_on_account,
}

-- The days that a bucket stands for.
abbrev pub InBucket : AgingBucket → ℤ → Type 0
InBucket current days = days ≤ℤ pos 0
InBucket days_1_to_30 days = (pos 1 ≤ℤ days) × (days ≤ℤ pos 30)
InBucket days_31_to_60 days = (pos 31 ≤ℤ days) × (days ≤ℤ pos 60)
InBucket days_61_to_90 days = (pos 61 ≤ℤ days) × (days ≤ℤ pos 90)
InBucket over_90 days = pos 91 ≤ℤ days

-- Every number of days is put in the bucket whose days it is among.
pub bucket_for_lem : (days : ℤ) → InBucket (bucket_for days) days
unfolding bucket_for
bucket_for_lem days = elim (Bool-cases (leb_ℤ days (pos 0))) [
  | inl a ↦ rw a (ground arith)
  | inr a ↦ elim (Bool-cases (leb_ℤ days (pos 30))) [
    | inl b ↦ rw (a, b) (ground arith)
    | inr b ↦ elim (Bool-cases (leb_ℤ days (pos 60))) [
      | inl c ↦ rw (a, b, c) (ground arith)
      | inr c ↦ elim (Bool-cases (leb_ℤ days (pos 90))) [
        | inl d ↦ rw (a, b, c, d) (ground arith)
        | inr d ↦ rw (a, b, c, d) (ground arith)
      ]
    ]
  ]
]

add_invoices_total :
    (as_of : ℕ) (invoices : List OutstandingInvoice) (rows : List (ℕ × Amounts))
    → all_totals (add_invoices as_of invoices rows)
      ≡ all_totals rows +ℤ sum_by (λ i. i.outstanding) invoices
unfolding add_invoices
add_invoices_total as_of [] rows = omega int_laws
add_invoices_total as_of (i ∷ is) rows =
    let b = bucket_for (days_past_due (due_day i) as_of) in
    elim (Bool-cases (eq_ℤ i.outstanding (pos 0))) [
      | inl settled ↦
          let zero = eq_ℤ→eq i.outstanding (pos 0) settled in
          rw (settled, add_invoices_total as_of is rows, zero) (omega int_laws)
      | inr open_still ↦
          rw
            (
              open_still,
              add_invoices_total as_of is (slot i.party_id (add_to b i.outstanding) rows),
              slot_total i.party_id (add_to b i.outstanding) i.outstanding rows
                  (add_to_total b i.outstanding),
            )
            (omega int_laws)
    ]

add_invoices_on_account :
    (as_of other : ℕ) (invoices : List OutstandingInvoice) (rows : List (ℕ × Amounts))
    → on_account_of other rows ≡ pos 0
    → on_account_of other (add_invoices as_of invoices rows) ≡ pos 0
unfolding add_invoices
add_invoices_on_account as_of other [] rows h = h
add_invoices_on_account as_of other (i ∷ is) rows h =
    let b = bucket_for (days_past_due (due_day i) as_of) in
    elim (Bool-cases (eq_ℤ i.outstanding (pos 0))) [
      | inl settled ↦ rw settled (add_invoices_on_account as_of other is rows h)
      | inr open_still ↦ rw open_still (
          add_invoices_on_account as_of other is (slot i.party_id (add_to b i.outstanding) rows)
            (slot_on_account i.party_id other b i.outstanding rows h))
    ]

set_total :
    (party : ℕ) (v : Decimal) (rows : List (ℕ × Amounts))
    → on_account_of party rows ≡ pos 0
    → all_totals (slot party (set_on_account v) rows) ≡ all_totals rows -ℤ v
unfolding slot
set_total party v [] h = omega int_laws
set_total party v (row ∷ rows) h = elim (Bool-cases (row.0 == party)) [
  | inl hit ↦ let none_yet : row.1.on_account ≡ pos 0 = rw hit at h in rw hit (omega int_laws)
  | inr miss ↦ rw (miss, set_total party v rows (rw miss at h)) (omega int_laws)
]

set_other :
    (party other : ℕ) (v : Decimal) (rows : List (ℕ × Amounts))
    → party ≢ other
    → on_account_of other rows ≡ pos 0
    → on_account_of other (slot party (set_on_account v) rows) ≡ pos 0
unfolding slot
set_other party other v [] ne h = let miss : (party == other) ≡ false = ground arith in rw miss refl
set_other party other v (row ∷ rows) ne h = elim (Bool-cases (row.0 == party)) [
  | inl hit ↦ let miss : (row.0 == other) ≡ false = ground arith in rw (hit, miss) (rw miss at h)
  | inr keep ↦ elim (Bool-cases (row.0 == other)) [
    | inl mine ↦ rw (keep, mine) (rw mine at h)
    | inr miss ↦ rw (keep, miss) (set_other party other v rows ne (rw miss at h))
  ]
]

-- No party stands in the list twice, as GROUP BY leaves it.
abbrev pub Grouped : List (ℕ × Decimal) → Type 0
Grouped [] = Unit {0}
Grouped (u ∷ us) = All (λ w. u.0 ≢ w.0) us × Grouped us

other_parties :
    (party : ℕ) (v : Decimal) (us : List (ℕ × Decimal)) (rows : List (ℕ × Amounts))
    → All (λ w. party ≢ w.0) us
    → All (λ w. on_account_of w.0 rows ≡ pos 0) us
    → All (λ w. on_account_of w.0 (slot party (set_on_account v) rows) ≡ pos 0) us
other_parties party v [] rows ne h = tt
other_parties party v (w ∷ us) rows ne h =
    (set_other party w.0 v rows ne.0 h.0, other_parties party v us rows ne.1 h.1)

add_unallocated_total :
    (us : List (ℕ × Decimal)) (rows : List (ℕ × Amounts))
    → Grouped us
    → All (λ w. on_account_of w.0 rows ≡ pos 0) us
    → all_totals (add_unallocated us rows) ≡ all_totals rows -ℤ sum_by (λ u. u.1) us
unfolding add_unallocated
add_unallocated_total [] rows g h = omega int_laws
add_unallocated_total (u ∷ us) rows g h = elim (Bool-cases (eq_ℤ u.1 (pos 0))) [
  | inl nothing ↦
      let zero = eq_ℤ→eq u.1 (pos 0) nothing in
      rw (nothing, add_unallocated_total us rows g.1 h.1, zero) (omega int_laws)
  | inr something ↦
      rw
        (
          something,
          add_unallocated_total us (slot u.0 (set_on_account u.1) rows) g.1
              (other_parties u.0 u.1 us rows g.0 h.1),
          set_total u.0 u.1 rows h.0,
        )
        (omega int_laws)
]

add_totals_total :
    (t : Amounts) (rows : List (ℕ × Amounts))
    → total_of (add_totals t rows) ≡ total_of t +ℤ all_totals rows
unfolding add_totals
add_totals_total t [] = omega int_laws
add_totals_total t (row ∷ rows) = rw (add_totals_total (add_amounts t row.1) rows) (omega int_laws)

none_yet :
    (as_of : ℕ) (invoices : List OutstandingInvoice) (us : List (ℕ × Decimal))
    → All (λ w. on_account_of w.0 (add_invoices as_of invoices []) ≡ pos 0) us
none_yet as_of invoices [] = tt
none_yet as_of invoices (w ∷ us) =
    (add_invoices_on_account as_of w.0 invoices [] refl, none_yet as_of invoices us)

-- The ageing report shows every amount once: its grand total is what is outstanding on all invoices
-- less what was paid and is not allocated, and is the sum of the totals of the parties.
pub report_total_lem :
    (as_of : ℕ) (invoices : List OutstandingInvoice) (unallocated : List (ℕ × Decimal))
    → Grouped unallocated
    → (report_total as_of invoices unallocated
        ≡ sum_by (λ i. i.outstanding) invoices -ℤ sum_by (λ u. u.1) unallocated)
      × (report_total as_of invoices unallocated
          ≡ sum_by (λ row. total_of row.1) (report_rows as_of invoices unallocated))
unfolding report_total report_rows
report_total_lem as_of invoices us g =
    let rows = add_invoices as_of invoices [] in
    let all = add_totals_total zero_amounts (add_unallocated us rows) in
    let paid = add_unallocated_total us rows g (none_yet as_of invoices us) in
    let owed = add_invoices_total as_of invoices [] in (omega int_laws, omega int_laws)
