-- ===== src/Prelude/Sums.antt =====
-- Sums of a field over a list, and the loops that accumulate them from the left.
use markaz.Prelude.{◌≡◌, refl, ◌∙◌, List, [], ◌∷◌, ◌++◌, map, arith, All}
use markaz.Prelude.Int.{ℤ, pos, ◌+ℤ◌, ◌-ℤ◌, ◌≤ℤ◌, int_laws}

module _ {ℓ} {A : Type ℓ} where
  abbrev pub sum_by : (A → ℤ) → List A → ℤ
  sum_by f [] = pos 0
  sum_by f (x ∷ xs) = f x +ℤ sum_by f xs

  -- `xs.reduce((sum, x) => sum.plus(f(x)), acc)`.
  abbrev pub sum_from : (A → ℤ) → ℤ → List A → ℤ
  sum_from f acc [] = acc
  sum_from f acc (x ∷ xs) = sum_from f (acc +ℤ f x) xs

  pub sum_from-eq : (f : A → ℤ) (acc : ℤ) (xs : List A) → sum_from f acc xs ≡ acc +ℤ sum_by f xs
  sum_from-eq f acc [] = omega int_laws
  sum_from-eq f acc (x ∷ xs) = sum_from-eq f (acc +ℤ f x) xs ∙ omega int_laws

  pub sum_by-append :
      (f : A → ℤ) (xs ys : List A) → sum_by f (xs ++ ys) ≡ sum_by f xs +ℤ sum_by f ys
  sum_by-append f [] ys = omega int_laws
  sum_by-append f (x ∷ xs) ys = rw (sum_by-append f xs ys) (omega int_laws)

  pub sum_by_add :
      (f g : A → ℤ) (xs : List A) → sum_by (λ x. f x +ℤ g x) xs ≡ sum_by f xs +ℤ sum_by g xs
  sum_by_add f g [] = omega int_laws
  sum_by_add f g (x ∷ xs) = rw (sum_by_add f g xs) (omega int_laws)

  pub sum_by_sub :
      (f g : A → ℤ) (xs : List A) → sum_by (λ x. f x -ℤ g x) xs ≡ sum_by f xs -ℤ sum_by g xs
  sum_by_sub f g [] = omega int_laws
  sum_by_sub f g (x ∷ xs) = rw (sum_by_sub f g xs) (omega int_laws)

  pub sum_by_nonneg : (f : A → ℤ) (xs : List A) → All (λ x. pos 0 ≤ℤ f x) xs → pos 0 ≤ℤ sum_by f xs
  sum_by_nonneg f [] h = omega arith
  sum_by_nonneg f (x ∷ xs) h = omega (int_laws, sum_by_nonneg f xs h.1)

  pub sum_by_cong :
      (f g : A → ℤ) (xs : List A) → All (λ x. f x ≡ g x) xs → sum_by f xs ≡ sum_by g xs
  sum_by_cong f g [] h = refl
  sum_by_cong f g (x ∷ xs) h = cc (sum_by_cong f g xs h.1)

pub sum_by-map {ℓ κ} :
    {A : Type ℓ} {B : Type κ} (f : B → ℤ) (g : A → B) (xs : List A)
    → sum_by f (map g xs) ≡ sum_by (λ x. f (g x)) xs
sum_by-map f g [] = refl
sum_by-map f g (x ∷ xs) = cc (sum_by-map f g xs)
