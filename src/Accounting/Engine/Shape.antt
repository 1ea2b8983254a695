-- ===== src/Accounting/Engine/Shape.antt =====
-- What `validateShape` accepts, said without its loop.
use markaz.Prelude.{
  ◌≤◌, ◌≡◌, ◌↔◌, ◌⊎◌, inl, inr, ap₂, ◌∙◌, true, false, List, [], ◌∷◌, arith, length, All,
}
use markaz.Prelude.Int.{ℤ, pos, ◌+ℤ◌, int_laws, +ℤ-zero, +ℤ_assoc, eq_ℤ→eq, eq_ℤ_refl}
use markaz.Prelude.Sums.{sum_by}
use markaz.Decimals.{Decimal}
use markaz.Store.{Result-cases, ok}
use markaz.Accounting.Engine.Command.{
  JournalLineInput, PostingCommand, or_zero, is_positive, validate_lines, validate_shape,
}

abbrev pub total_debit : List JournalLineInput → Decimal
total_debit = sum_by (λ l. or_zero l.debit)

abbrev pub total_credit : List JournalLineInput → Decimal
total_credit = sum_by (λ l. or_zero l.credit)

-- A positive debit or a positive credit, and not both.
abbrev pub HasOneSide : JournalLineInput → Type 0
HasOneSide l =
    ((is_positive l.debit ≡ true) × (is_positive l.credit ≡ false))
    ⊎ ((is_positive l.debit ≡ false) × (is_positive l.credit ≡ true))

validate_lines_ok :
    (ls : List JournalLineInput) (d c : Decimal)
    → All HasOneSide ls
    → validate_lines ls d c ≡ ok (d +ℤ total_debit ls, c +ℤ total_credit ls)
validate_lines_ok [] d c h = rw (+ℤ-zero d, +ℤ-zero c)
validate_lines_ok (l ∷ ls) d c h = ground (
  arith,
  validate_lines_ok ls (d +ℤ or_zero l.debit) (c +ℤ or_zero l.credit) h.1,
  +ℤ_assoc d (or_zero l.debit) (total_debit ls),
  +ℤ_assoc c (or_zero l.credit) (total_credit ls),
)

validate_lines_one_sided :
    (ls : List JournalLineInput) (d c : Decimal) (t : Decimal × Decimal)
    → validate_lines ls d c ≡ ok t
    → All HasOneSide ls
validate_lines_one_sided [] d c t h = tt
validate_lines_one_sided (l ∷ ls) d c t h =
    ground (arith, validate_lines_one_sided ls (d +ℤ or_zero l.debit) (c +ℤ or_zero l.credit) t)

zero_plus : (a : ℤ) → pos 0 +ℤ a ≡ a
zero_plus a = omega int_laws

-- The totals of an accepted command, with the running totals started at zero.
validate_lines_from_zero :
    (ls : List JournalLineInput)
    → All HasOneSide ls
    → validate_lines ls (pos 0) (pos 0) ≡ ok (total_debit ls, total_credit ls)
validate_lines_from_zero ls h =
    validate_lines_ok ls (pos 0) (pos 0) h
    ∙ ap₂ (λ d c. ok (d, c)) (zero_plus (total_debit ls)) (zero_plus (total_credit ls))

-- A command passes exactly when it has two lines or more, each with a positive debit or a positive
-- credit and not both, and its debits and credits add up to the same.
pub validate_shape_iff :
    (command : PostingCommand)
    → (validate_shape command ≡ ok tt) ↔ (
        (2 ≤ length command.lines)
        × All HasOneSide command.lines
        × (total_debit command.lines ≡ total_credit command.lines))
unfolding validate_shape
validate_shape_iff command =
    let ls = command.lines in
    (
      (λ passed. elim (Result-cases (validate_lines ls (pos 0) (pos 0))) [
        | inl (t, e) ↦
            let sides = validate_lines_one_sided ls (pos 0) (pos 0) t e in
            let totals = validate_lines_from_zero ls sides in
            (
              ground arith,
              sides,
              ground (arith, totals, eq_ℤ→eq (total_debit ls) (total_credit ls)),
            )
        | inr (x, e) ↦ absurd (ground arith)
      ]),
      λ (long, sides, equal).
          ground (arith, validate_lines_from_zero ls sides, eq_ℤ_refl (total_debit ls)),
    )
