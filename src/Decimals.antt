-- ===== src/Decimals.antt =====
-- Decimal numbers: decimal.js (as `Prisma.Decimal`) and the NUMERIC columns that store its values.
-- A decimal is the integer of its smallest units, `units_per_4` of them in one ten-thousandth, so that
-- addition, subtraction, negation and comparison are those of the integers: exact, as decimal.js is
-- within its 20 significant digits. What rounds is the third-party library's or the database's, and is
-- a parameter: products, quotients, `toDecimalPlaces`, and the rounding of a column on a write.
use markaz.Prelude.{ℕ, ◌*◌, ◌<◌, ◌≡◌, ◌∙◌, sym, ap, Bool, if◌then◌else◌}
use markaz.Prelude.Int.{ℤ, pos, ◌+ℤ◌, ◌-ℤ◌, ◌≤ℤ◌, ltb_ℤ, int_laws}

abbrev pub Decimal : Type 0
Decimal = ℤ

abbrev pub greater_than : Decimal → Decimal → Bool
greater_than a b = ltb_ℤ b a

abbrev pub less_than : Decimal → Decimal → Bool
less_than a b = ltb_ℤ a b

abbrev pub min_ℤ : Decimal → Decimal → Decimal
min_ℤ a b = if ltb_ℤ b a then b else a

abbrev pub max_ℤ : Decimal → Decimal → Decimal
max_ℤ a b = if ltb_ℤ a b then b else a

abbrev pub negated : Decimal → Decimal
negated a = pos 0 -ℤ a

pub record Arithmetic : Type 0 where
  -- The smallest units in one ten-thousandth.
  pub units_per_4 : ℕ
  pub times : Decimal → Decimal → Decimal
  pub divided_by : Decimal → Decimal → Decimal
  -- `toDecimalPlaces(4)`, and the value of `toFixed(4)`.
  pub round4 : Decimal → Decimal
  -- The value of `toFixed(3)`.
  pub fixed3 : Decimal → Decimal
  -- The value that a NUMERIC(19,4) column keeps.
  pub column4 : Decimal → Decimal

abbrev pub one : Arithmetic → Decimal
one m = pos (10000 * m.units_per_4)

-- What the documentation of decimal.js and of NUMERIC states of these operations.
pub record IsArithmetic (m : Arithmetic) : Type 0 where
  pub units_pos : 0 < m.units_per_4
  pub times_one : (a : Decimal) → m.times a (one m) ≡ a
  pub times_nonneg : (a b : Decimal) → pos 0 ≤ℤ a → pos 0 ≤ℤ b → pos 0 ≤ℤ m.times a b
  pub divided_by_nonneg : (a b : Decimal) → pos 0 ≤ℤ a → pos 0 ≤ℤ b → pos 0 ≤ℤ m.divided_by a b
  pub round4_nonneg : (a : Decimal) → pos 0 ≤ℤ a → pos 0 ≤ℤ m.round4 a
  pub round4_mono : (a b : Decimal) → a ≤ℤ b → m.round4 a ≤ℤ m.round4 b
  pub fixed3_nonneg : (a : Decimal) → pos 0 ≤ℤ a → pos 0 ≤ℤ m.fixed3 a
  -- A column keeps what has its scale, which rounded amounts, sums and differences of such have.
  pub column4_round4 : (a : Decimal) → m.column4 (m.round4 a) ≡ m.round4 a
  pub round4_column4 : (a : Decimal) → m.round4 (m.column4 a) ≡ m.column4 a
  pub column4_sum :
      (a b : Decimal) → m.column4 a ≡ a → m.column4 b ≡ b → m.column4 (a +ℤ b) ≡ a +ℤ b
  pub column4_difference :
      (a b : Decimal) → m.column4 a ≡ a → m.column4 b ≡ b → m.column4 (a -ℤ b) ≡ a -ℤ b

-- An amount of the column's scale.
abbrev pub IsScaled : Arithmetic → Decimal → Type 0
IsScaled m a = m.column4 a ≡ a

module _ (m : Arithmetic) (laws : IsArithmetic m) where
  pub column4_zero : IsScaled m (pos 0)
  column4_zero =
      let z = m.round4 (pos 0) in
      let same : z -ℤ z ≡ pos 0 = omega int_laws in
      sym (ap m.column4 same)
      ∙ laws.column4_difference z z (laws.column4_round4 (pos 0)) (laws.column4_round4 (pos 0))
      ∙ same

  pub round4_scaled : (a : Decimal) → IsScaled m a → m.round4 a ≡ a
  round4_scaled a h = ap m.round4 (sym h) ∙ laws.round4_column4 a ∙ h
