-- ===== src/Prelude/Text.antt =====
-- Text as the list of its code points, and decimal numerals in it: `String(n)`, `padStart`,
-- `BigInt(s)` on digits.
use Prim.Native.Char.{code}
use Prim.Native.String.{String}
use mathlib.Core.List.{reverse}
use markaz.Prelude.{
  ℕ, zero, suc, ◌+◌, ◌-◌, ◌*◌, ◌/◌, ◌%◌, ◌≤◌, ◌<◌, ◌≡◌, refl, ap, ◌∙◌, inl, inr, Bool, true, false,
  ◌&&◌, ◌||◌, leb, List, [], ◌∷◌, ◌++◌, arith, ltb, leb, ◌==◌, if◌then◌else◌, length, All,
  All-append, Bool-cases,
}

abbrev pub Text : Type 0
Text = List ℕ

-- The code points of a literal.
abbrev pub codes : String → Text
codes String.[] = []
codes (String.◌∷◌ c s) = code c ∷ codes s

abbrev pub text_eq : Text → Text → Bool
text_eq [] [] = true
text_eq (a ∷ s) (b ∷ t) = (a == b) && text_eq s t
text_eq _ _ = false

pub text_eq_refl : (s : Text) → text_eq s s ≡ true
text_eq_refl [] = refl
text_eq_refl (a ∷ s) = ground (arith, text_eq_refl s)

pub text_eq→eq : (s t : Text) → text_eq s t ≡ true → s ≡ t
text_eq→eq [] [] h = refl
text_eq→eq [] (b ∷ t) h = cc
text_eq→eq (a ∷ s) [] h = cc
text_eq→eq (a ∷ s) (b ∷ t) h = ground (arith, text_eq→eq s t)

-- The white space that `trim` takes off, within the characters that the program's texts hold.
abbrev is_space : ℕ → Bool
is_space c = (leb 9 c && leb c 13) || (c == 32) || (c == 160)

abbrev trim_start : Text → Text
trim_start [] = []
trim_start (c ∷ s) = if is_space c then trim_start s else c ∷ s

-- `s.trim()`.
unfoldable pub trim : Text → Text
trim s = reverse (trim_start (reverse (trim_start s)))

abbrev pub IsDigit : ℕ → Type 0
IsDigit c = (48 ≤ c) × (c < 58)

-- The digits of `n` before `acc`; the fuel is at least the number of digits.
show_from : ℕ → ℕ → Text → Text
show_from zero n acc = acc
show_from (suc fuel) n acc =
    let rest = show_from fuel (n / 10) ((48 + n % 10) ∷ acc) in
    if ltb n 10 then (48 + n) ∷ acc else rest

-- `String(n)`.
unfoldable pub show : ℕ → Text
unfolding show_from
show n = show_from (suc n) n []

-- The value of a text of digits read after the digits of `acc`.
abbrev pub value_from : ℕ → Text → ℕ
value_from acc [] = acc
value_from acc (c ∷ s) = value_from (acc * 10 + (c - 48)) s

abbrev pub value : Text → ℕ
value = value_from 0

abbrev zeros : ℕ → Text
zeros zero = []
zeros (suc k) = 48 ∷ zeros k

-- `s.padStart(width, "0")`.
unfoldable pub pad_start : ℕ → Text → Text
pad_start width s = zeros (width - length s) ++ s

value_from-append :
    (acc : ℕ) (s t : Text) → value_from acc (s ++ t) ≡ value_from (value_from acc s) t
value_from-append acc [] t = refl
value_from-append acc (c ∷ s) t = value_from-append (acc * 10 + (c - 48)) s t

value-zeros : (k : ℕ) (s : Text) → value_from 0 (zeros k ++ s) ≡ value s
value-zeros zero s = refl
value-zeros (suc k) s = value-zeros k s

-- Padding with zeros does not change the number.
pub value-pad_start : (w : ℕ) (s : Text) → value (pad_start w s) ≡ value s
unfolding pad_start
value-pad_start w s = value-zeros (w - length s) s

-- The digits shown, read after a number, are that number times a power of ten plus `n`.
value-show_from :
    (fuel n : ℕ) (acc : Text) → n < fuel → value (show_from fuel n acc) ≡ value_from n acc
unfolding show_from
value-show_from zero n acc h = elim h [ ]
value-show_from (suc fuel) n acc h = elim (Bool-cases (ltb n 10)) [
  | inl small ↦ rw small (ap (λ k. value_from k acc) (omega arith))
  | inr large ↦ rw large (
      value-show_from fuel (n / 10) ((48 + n % 10) ∷ acc) (ground arith)
      ∙ ap (λ k. value_from k acc) (omega arith))
]

-- Reading the shown numeral gives the number back.
pub value-show : (n : ℕ) → value (show n) ≡ n
unfolding show
value-show n = value-show_from (suc n) n [] (omega arith)

show_from-IsDigit : (fuel n : ℕ) (acc : Text) → All IsDigit acc → All IsDigit (show_from fuel n acc)
unfolding show_from
show_from-IsDigit zero n acc h = h
show_from-IsDigit (suc fuel) n acc h = elim (Bool-cases (ltb n 10)) [
  | inl small ↦ rw small ((ground arith, ground arith), h)
  | inr large ↦
      rw large
        (show_from-IsDigit fuel (n / 10) ((48 + n % 10) ∷ acc) ((omega arith, omega arith), h))
]

pub show-IsDigit : (n : ℕ) → All IsDigit (show n)
unfolding show
show-IsDigit n = show_from-IsDigit (suc n) n [] tt

zeros-IsDigit : (k : ℕ) → All IsDigit (zeros k)
zeros-IsDigit zero = tt
zeros-IsDigit (suc k) = (omega arith, zeros-IsDigit k)

pub pad_start-IsDigit : (w : ℕ) (s : Text) → All IsDigit s → All IsDigit (pad_start w s)
unfolding pad_start
pad_start-IsDigit w s h =
    All-append IsDigit (zeros (w - length s)) s (zeros-IsDigit (w - length s)) h

length-zeros_append : (k : ℕ) (s : Text) → length (zeros k ++ s) ≡ k + length s
length-zeros_append zero s = omega arith
length-zeros_append (suc k) s = omega (arith, length-zeros_append k s)

-- The padded text is as wide as asked, or wider where the text already was.
pub length-pad_start :
    (w : ℕ) (s : Text) → (w ≤ length (pad_start w s)) × (length s ≤ length (pad_start w s))
unfolding pad_start
length-pad_start w s = omega (arith, length-zeros_append (w - length s) s)

pub length-pad_start_fits : (w : ℕ) (s : Text) → length s ≤ w → length (pad_start w s) ≡ w
unfolding pad_start
length-pad_start_fits w s h = omega (arith, length-zeros_append (w - length s) s)

abbrev pub pow10 : ℕ → ℕ
pow10 zero = 1
pow10 (suc k) = 10 * pow10 k

length-show_from :
    (k fuel n : ℕ) (acc : Text)
    → n < pow10 (suc k)
    → length (show_from fuel n acc) ≤ suc k + length acc
unfolding show_from
length-show_from zero zero n acc h = omega arith
length-show_from (suc k) zero n acc h = omega arith
length-show_from zero (suc fuel) n acc h = ground arith
length-show_from (suc k) (suc fuel) n acc h = elim (Bool-cases (ltb n 10)) [
  | inl small ↦ rw small (omega arith)
  | inr large ↦
      rw large (omega (arith, length-show_from k fuel (n / 10) ((48 + n % 10) ∷ acc) (omega arith)))
]

-- A number below ten to the `k` has at most `k` digits.
pub length-show : (k n : ℕ) → n < pow10 (suc k) → length (show n) ≤ suc k
unfolding show
length-show k n h = omega (arith, length-show_from k (suc n) n [] h)

length-le-show_from : (fuel n : ℕ) (acc : Text) → length acc ≤ length (show_from fuel n acc)
unfolding show_from
length-le-show_from zero n acc = omega arith
length-le-show_from (suc fuel) n acc = elim (Bool-cases (ltb n 10)) [
  | inl small ↦ rw small (omega arith)
  | inr large ↦ rw large (omega (arith, length-le-show_from fuel (n / 10) ((48 + n % 10) ∷ acc)))
]

-- Every number has at least one digit.
pub length-show_pos : (n : ℕ) → 0 < length (show n)
unfolding show
length-show_pos n = elim (Bool-cases (ltb n 10)) [
  | inl small ↦ rw (small, show_from) (omega arith)
  | inr large ↦
      rw (large, show_from) (omega (arith, length-le-show_from n (n / 10) ((48 + n % 10) ∷ [])))
]
