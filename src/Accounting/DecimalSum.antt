-- ===== src/Accounting/DecimalSum.antt =====
-- packages/core/src/accounting/decimal-sum.util.ts: decimal strings of a NUMERIC(19,4) column as
-- integers of ten-thousandths, and back. `none` stands for the SyntaxError that BigInt throws.
use markaz.Prelude.{
  ℕ, zero, suc, ◌/◌, ◌%◌, ◌<◌, ◌≡◌, refl, ap, Bool, true, false, ◌&&◌, Option, none, some, [], ◌∷◌,
  ◌++◌, arith, ◌==◌, leb, if◌then◌else◌, length, All,
}
use markaz.Prelude.Int.{ℤ, pos, negsuc, ◌+ℤ◌, ◌*ℤ◌, ◌-ℤ◌, ltb_ℤ}
use markaz.Prelude.Text.{
  Text, IsDigit, show, value, pad_start, value-show, show-IsDigit, value-pad_start,
  pad_start-IsDigit, length-pad_start_fits, length-show, length-show_pos,
}

abbrev dot : ℕ
dot = 46

abbrev minus_sign : ℕ
minus_sign = 45

infixl 5 ◌>>=◌
abbrev ◌>>=◌ : {A B : Type 0} → Option A → (A → Option B) → Option B
none >>= f = none
some a >>= f = f a

-- The parts of `s.split(".")` that the destructuring reads.
abbrev before_dot : Text → Text
before_dot [] = []
before_dot (c ∷ s) = if c == dot then [] else c ∷ before_dot s

abbrev after_dot : Text → Text
after_dot [] = []
after_dot (c ∷ s) = if c == dot then s else after_dot s

-- `fraction.padEnd(4, "0").slice(0, 4)`.
abbrev first_padded : ℕ → Text → Text
first_padded zero s = []
first_padded (suc k) [] = 48 ∷ first_padded k []
first_padded (suc k) (c ∷ s) = c ∷ first_padded k s

abbrev all_digits : Text → Bool
all_digits [] = true
all_digits (c ∷ s) = (leb 48 c && leb c 57) && all_digits s

abbrev starts_minus : Text → Bool
starts_minus [] = false
starts_minus (c ∷ s) = c == minus_sign

-- `BigInt(s)` on an optional minus sign and digits; a lone sign and other characters throw.
big_int : Text → Option ℤ
big_int [] = some (pos 0)
big_int (c ∷ []) =
    if c == minus_sign
    then none
    else if all_digits (c ∷ [])
    then some (pos (value (c ∷ [])))
    else none
big_int (c ∷ d ∷ s) =
    if c == minus_sign
    then (if all_digits (d ∷ s) then some (pos 0 -ℤ pos (value (d ∷ s))) else none)
    else if all_digits (c ∷ d ∷ s)
    then some (pos (value (c ∷ d ∷ s)))
    else none

unfoldable pub to_scaled_big_int : Text → Option ℤ
unfolding big_int
to_scaled_big_int s = do
  whole ← big_int (before_dot s)
  fraction ← big_int (first_padded 4 (before_dot (after_dot s)))
  some (whole *ℤ pos 10000 +ℤ fraction *ℤ (if starts_minus (before_dot s) then negsuc 0 else pos 1))

magnitude : ℤ → ℕ
magnitude (pos n) = n
magnitude (negsuc n) = suc n

unfoldable pub from_scaled_big_int : ℤ → Text
unfolding magnitude
from_scaled_big_int x =
    let shown = show (magnitude x / 10000) ++ (dot ∷ pad_start 4 (show (magnitude x % 10000))) in
    if ltb_ℤ x (pos 0) then minus_sign ∷ shown else shown

before_dot-append : (s t : Text) → All IsDigit s → before_dot (s ++ (dot ∷ t)) ≡ s
before_dot-append [] t h = refl
before_dot-append (c ∷ s) t h = ground (arith, before_dot-append s t h.1)

after_dot-append : (s t : Text) → All IsDigit s → after_dot (s ++ (dot ∷ t)) ≡ t
after_dot-append [] t h = refl
after_dot-append (c ∷ s) t h = ground (arith, after_dot-append s t h.1)

before_dot_digits : (s : Text) → All IsDigit s → before_dot s ≡ s
before_dot_digits [] h = refl
before_dot_digits (c ∷ s) h = ground (arith, before_dot_digits s h.1)

first_padded_exact : (k : ℕ) (s : Text) → length s ≡ k → first_padded k s ≡ s
first_padded_exact zero [] h = refl
first_padded_exact zero (c ∷ s) h = absurd (omega arith)
first_padded_exact (suc k) [] h = absurd (omega arith)
first_padded_exact (suc k) (c ∷ s) h = ap (◌∷◌ c) (first_padded_exact k s (omega arith))

all_digits-true : (s : Text) → All IsDigit s → all_digits s ≡ true
all_digits-true [] h = refl
all_digits-true (c ∷ s) h = ground (arith, all_digits-true s h.1)

big_int_digits : (s : Text) → All IsDigit s → big_int s ≡ some (pos (value s))
unfolding big_int
big_int_digits [] h = refl
big_int_digits (c ∷ []) h = ground arith
big_int_digits (c ∷ d ∷ s) h = ground (arith, all_digits-true s h.1.1)

big_int_minus :
    (s : Text)
    → All IsDigit s
    → 0 < length s
    → big_int (minus_sign ∷ s) ≡ some (pos 0 -ℤ pos (value s))
unfolding big_int
big_int_minus [] h p = absurd (omega arith)
big_int_minus (c ∷ s) h p = rw (all_digits-true (c ∷ s) h)

-- The four digits after the point.
abbrev decimals : ℕ → Text
decimals n = pad_start 4 (show (n % 10000))

decimals-IsDigit : (n : ℕ) → All IsDigit (decimals n)
decimals-IsDigit n = pad_start-IsDigit 4 (show (n % 10000)) (show-IsDigit (n % 10000))

decimals_read :
    (n : ℕ) → big_int (first_padded 4 (before_dot (decimals n))) ≡ some (pos (n % 10000))
decimals_read n = rw (
  before_dot_digits (decimals n) (decimals-IsDigit n),
  first_padded_exact 4 (decimals n)
      (length-pad_start_fits 4 (show (n % 10000)) (length-show 3 (n % 10000) (omega arith))),
  big_int_digits (decimals n) (decimals-IsDigit n),
  value-pad_start 4 (show (n % 10000)),
  value-show (n % 10000),
)

abbrev shown : ℕ → Text
shown n = show (n / 10000) ++ (dot ∷ decimals n)

starts_minus_digits : (s : Text) → All IsDigit s → starts_minus s ≡ false
starts_minus_digits [] h = refl
starts_minus_digits (c ∷ s) h = ground arith

whole_and_fraction : (n : ℕ) → pos (n / 10000) *ℤ pos 10000 +ℤ pos (n % 10000) *ℤ pos 1 ≡ pos n
unfolding ◌+ℤ◌ ◌*ℤ◌
whole_and_fraction n = ground arith

negated_whole_and_fraction :
    (n : ℕ)
    → (pos 0 -ℤ pos (suc n / 10000)) *ℤ pos 10000 +ℤ pos (suc n % 10000) *ℤ negsuc 0 ≡ negsuc n
unfolding ◌+ℤ◌ ◌*ℤ◌ ◌-ℤ◌
negated_whole_and_fraction n = ground arith

to_scaled_shown : (n : ℕ) → to_scaled_big_int (shown n) ≡ some (pos n)
unfolding to_scaled_big_int
to_scaled_shown n =
    rw
      (
        before_dot-append (show (n / 10000)) (decimals n) (show-IsDigit (n / 10000)),
        after_dot-append (show (n / 10000)) (decimals n) (show-IsDigit (n / 10000)),
        big_int_digits (show (n / 10000)) (show-IsDigit (n / 10000)),
        decimals_read n,
        starts_minus_digits (show (n / 10000)) (show-IsDigit (n / 10000)),
        value-show (n / 10000),
      )
      (ap some (whole_and_fraction n))

to_scaled_minus_shown : (n : ℕ) → to_scaled_big_int (minus_sign ∷ shown (suc n)) ≡ some (negsuc n)
unfolding to_scaled_big_int
to_scaled_minus_shown n =
    rw
      (
        before_dot-append (show (suc n / 10000)) (decimals (suc n)) (show-IsDigit (suc n / 10000)),
        after_dot-append (show (suc n / 10000)) (decimals (suc n)) (show-IsDigit (suc n / 10000)),
        big_int_minus (show (suc n / 10000)) (show-IsDigit (suc n / 10000))
            (length-show_pos (suc n / 10000)),
        decimals_read (suc n),
        value-show (suc n / 10000),
      )
      (ap some (negated_whole_and_fraction n))

-- Reading back what `from_scaled_big_int` prints gives the integer: no amount of the column's scale
-- is changed by the two conversions, whatever its sign.
pub to_scaled_big_int-from_scaled_big_int :
    (x : ℤ) → to_scaled_big_int (from_scaled_big_int x) ≡ some x
unfolding from_scaled_big_int
to_scaled_big_int-from_scaled_big_int (pos n) = ground (arith, to_scaled_shown n)
to_scaled_big_int-from_scaled_big_int (negsuc n) = ground (arith, to_scaled_minus_shown n)
