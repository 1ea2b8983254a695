-- ===== src/Payments/Aging/Slots.antt =====
-- What an amount put in a slot of the report adds to its totals.
use markaz.Prelude.{
  ℕ, ◌≡◌, refl, ◌∙◌, inl, inr, List, [], ◌∷◌, arith, Bool-cases, ◌==◌, if◌then◌else◌,
}
use markaz.Prelude.Int.{ℤ, pos, ◌+ℤ◌, int_laws}
use markaz.Prelude.Sums.{sum_by}
use markaz.Decimals.{Decimal}
use markaz.Payments.Aging.{
  AgingBucket, current, days_1_to_30, days_31_to_60, days_61_to_90, over_90, Amounts, zero_amounts,
  add_to, total_of, slot,
}

abbrev pub all_totals : List (ℕ × Amounts) → ℤ
all_totals = sum_by (λ row. total_of row.1)

pub add_to_total :
    (b : AgingBucket) (v : Decimal) (a : Amounts) → total_of (add_to b v a) ≡ total_of a +ℤ v
add_to_total current v a = omega int_laws
add_to_total days_1_to_30 v a = omega int_laws
add_to_total days_31_to_60 v a = omega int_laws
add_to_total days_61_to_90 v a = omega int_laws
add_to_total over_90 v a = omega int_laws

add_to_on_account :
    (b : AgingBucket) (v : Decimal) (a : Amounts) → (add_to b v a).on_account ≡ a.on_account
add_to_on_account current v a = refl
add_to_on_account days_1_to_30 v a = refl
add_to_on_account days_31_to_60 v a = refl
add_to_on_account days_61_to_90 v a = refl
add_to_on_account over_90 v a = refl

pub slot_total :
    (party : ℕ) (f : Amounts → Amounts) (v : ℤ) (rows : List (ℕ × Amounts))
    → ((a : Amounts) → total_of (f a) ≡ total_of a +ℤ v)
    → all_totals (slot party f rows) ≡ all_totals rows +ℤ v
unfolding slot
slot_total party f v [] h = rw (h zero_amounts) (omega int_laws)
slot_total party f v (row ∷ rows) h = elim (Bool-cases (row.0 == party)) [
  | inl hit ↦ rw (hit, h row.1) (omega int_laws)
  | inr miss ↦ rw (miss, slot_total party f v rows h) (omega int_laws)
]

-- What the rows of a party hold on account.
abbrev pub on_account_of : ℕ → List (ℕ × Amounts) → ℤ
on_account_of party [] = pos 0
on_account_of party (row ∷ rows) =
    if row.0 == party then row.1.on_account else on_account_of party rows

pub slot_on_account :
    (party other : ℕ) (b : AgingBucket) (v : Decimal) (rows : List (ℕ × Amounts))
    → on_account_of other rows ≡ pos 0
    → on_account_of other (slot party (add_to b v) rows) ≡ pos 0
unfolding slot
slot_on_account party other b v [] h = elim (Bool-cases (party == other)) [
  | inl hit ↦ rw hit (add_to_on_account b v zero_amounts)
  | inr miss ↦ rw miss refl
]
slot_on_account party other b v (row ∷ rows) h = elim (Bool-cases (row.0 == party)) [
  | inl mine ↦ elim (Bool-cases (row.0 == other)) [
    | inl hit ↦ rw (mine, hit) (add_to_on_account b v row.1 ∙ ground arith)
    | inr miss ↦ rw (mine, miss) (ground arith)
  ]
  | inr not_mine ↦ elim (Bool-cases (row.0 == other)) [
    | inl hit ↦ rw (not_mine, hit) (ground arith)
    | inr miss ↦ rw (not_mine, miss) (slot_on_account party other b v rows (ground arith))
  ]
]
