-- ===== src/Tests/FourPlaces.antt =====
-- Decimals of exactly four places, products and quotients cut off: one arithmetic that has all the
-- properties that are asked of decimal.js and of the NUMERIC columns.
use markaz.Prelude.{refl, ℕ, zero, suc, ◌*◌, ◌/◌, ◌≡◌, arith}
use markaz.Prelude.Int.{ℤ, pos, negsuc, ◌≤ℤ◌}
use markaz.Decimals.{Decimal, Arithmetic, IsArithmetic}

abbrev pub minus : ℕ → ℤ
minus zero = pos 0
minus (suc n) = negsuc n

abbrev pub cut_times : Decimal → Decimal → Decimal
cut_times (pos a) (pos b) = pos (a * b / 10000)
cut_times (pos a) (negsuc b) = minus (a * suc b / 10000)
cut_times (negsuc a) (pos b) = minus (suc a * b / 10000)
cut_times (negsuc a) (negsuc b) = pos (suc a * suc b / 10000)

abbrev pub cut_divided_by : Decimal → Decimal → Decimal
cut_divided_by (pos a) (pos b) = pos (a * 10000 / b)
cut_divided_by (pos a) (negsuc b) = minus (a * 10000 / suc b)
cut_divided_by (negsuc a) (pos b) = minus (suc a * 10000 / b)
cut_divided_by (negsuc a) (negsuc b) = pos (suc a * 10000 / suc b)

abbrev pub cut3 : Decimal → Decimal
cut3 (pos a) = pos (a / 10 * 10)
cut3 (negsuc a) = minus (suc a / 10 * 10)

abbrev pub four_places : Arithmetic
four_places = record {
  units_per_4 = 1;
  times = cut_times;
  divided_by = cut_divided_by;
  round4 = λ a. a;
  fixed3 = cut3;
  column4 = λ a. a;
}

times_one_lem : (a : Decimal) → cut_times a (pos 10000) ≡ a
times_one_lem (pos a) = ground arith
times_one_lem (negsuc a) = ground arith

times_nonneg_lem : (a b : Decimal) → pos 0 ≤ℤ a → pos 0 ≤ℤ b → pos 0 ≤ℤ cut_times a b
times_nonneg_lem (pos a) (pos b) h k = ground arith
times_nonneg_lem (pos a) (negsuc b) h k = absurd (ground arith)
times_nonneg_lem (negsuc a) b h k = absurd (ground arith)

divided_by_nonneg_lem : (a b : Decimal) → pos 0 ≤ℤ a → pos 0 ≤ℤ b → pos 0 ≤ℤ cut_divided_by a b
divided_by_nonneg_lem (pos a) (pos b) h k = ground arith
divided_by_nonneg_lem (pos a) (negsuc b) h k = absurd (ground arith)
divided_by_nonneg_lem (negsuc a) b h k = absurd (ground arith)

cut3_nonneg : (a : Decimal) → pos 0 ≤ℤ a → pos 0 ≤ℤ cut3 a
cut3_nonneg (pos a) h = ground arith
cut3_nonneg (negsuc a) h = absurd (ground arith)

pub four_places-IsArithmetic : IsArithmetic four_places
four_places-IsArithmetic = record {
  units_pos = omega arith;
  times_one = times_one_lem;
  times_nonneg = times_nonneg_lem;
  divided_by_nonneg = divided_by_nonneg_lem;
  fixed3_nonneg = cut3_nonneg;
  round4_nonneg = λ a h. h;
  round4_mono = λ a b h. h;
  column4_round4 = λ a. refl;
  round4_column4 = λ a. refl;
  column4_sum = λ a b h k. refl;
  column4_difference = λ a b h k. refl;
}
