-- ===== src/Accounting/AccountCode/Scan.antt =====
-- What the two scans of suggestNextChildCode find: the highest suffix in use, and the first free number.
use markaz.Prelude.{
  ℕ, zero, suc, ◌+◌, ◌≤◌, ◌<◌, ◌≡◌, refl, sym, subst, inl, inr, true, false, none, some, All, List,
  [], ◌∷◌, ◌==◌, arith, Bool-cases, Option-cases,
}
use markaz.Prelude.Text.{Text}
use markaz.Accounting.AccountCode.{
  CodedAccount, counted_suffix, highest_suffix, max_ℕ, is_taken, code_of, first_free,
}

-- Each number from `n` up to where the loop stops is taken.
abbrev pub AllTaken : List CodedAccount → CodedAccount → ℕ → ℕ → ℕ → Type 0
AllTaken accounts parent width from to =
    (k : ℕ) → from ≤ k → k < to → is_taken (code_of parent width k) accounts ≡ true

pub first_free_lem :
    (accounts : List CodedAccount) (parent : CodedAccount) (width steps n : ℕ) (code : Text)
    → first_free accounts parent width steps n ≡ some code
    → (k : ℕ) × (code ≡ code_of parent width k)
      × (is_taken code accounts ≡ false)
      × (n ≤ k)
      × (k < n + steps)
      × AllTaken accounts parent width n k
first_free_lem accounts parent width zero n code e = absurd (ground arith)
first_free_lem accounts parent width (suc steps) n code e =
    elim (Bool-cases (is_taken (code_of parent width n) accounts)) [
      | inr free ↦
          let same : code_of parent width n ≡ code = ground arith in
          (
            n,
            sym same,
            rw (sym same) free,
            omega arith,
            omega arith,
            λ k low high. absurd (omega arith),
          )
      | inl taken ↦
          let (k, same, free, low, high, before) =
            first_free_lem accounts parent width steps (suc n) code (ground arith) in
          (
            k,
            same,
            free,
            omega arith,
            omega arith,
            λ j from to. elim (Bool-cases (j == n)) [
              | inl first ↦ let at : j ≡ n = ground arith in rw at taken
              | inr later ↦ let after : suc n ≤ j = ground arith in before j after to
            ],
          )
    ]

pub first_free-none :
    (accounts : List CodedAccount) (parent : CodedAccount) (width steps n : ℕ)
    → first_free accounts parent width steps n ≡ none
    → AllTaken accounts parent width n (n + steps)
first_free-none accounts parent width zero n e k low high = absurd (omega arith)
first_free-none accounts parent width (suc steps) n e k low high =
    elim (Bool-cases (is_taken (code_of parent width n) accounts)) [
      | inr free ↦ absurd (ground arith)
      | inl taken ↦ elim (Bool-cases (k == n)) [
        | inl first ↦ let at : k ≡ n = ground arith in rw at taken
        | inr later ↦
            let after : suc n ≤ k = ground arith in
            first_free-none accounts parent width steps (suc n) (ground arith) k after (omega arith)
      ]
    ]

pub highest_suffix_skip :
    (parent : CodedAccount) (width : ℕ) (a : CodedAccount) (more : List CodedAccount) (h : ℕ)
    → counted_suffix parent width a ≡ none
    → highest_suffix parent width (a ∷ more) h ≡ highest_suffix parent width more h
highest_suffix_skip parent width a more h e = rw (highest_suffix, e) refl

pub highest_suffix_take :
    (parent : CodedAccount) (width : ℕ) (a : CodedAccount) (more : List CodedAccount) (h k : ℕ)
    → counted_suffix parent width a ≡ some k
    → highest_suffix parent width (a ∷ more) h ≡ highest_suffix parent width more (max_ℕ h k)
highest_suffix_take parent width a more h k e = rw (highest_suffix, e) refl

highest_suffix_above :
    (parent : CodedAccount) (width : ℕ) (accounts : List CodedAccount) (h : ℕ)
    → h ≤ highest_suffix parent width accounts h
highest_suffix_above parent width [] h = omega arith
highest_suffix_above parent width (a ∷ more) h =
    elim (Option-cases (counted_suffix parent width a)) [
      | inl skipped ↦
          let step = highest_suffix_skip parent width a more h skipped in
          omega (arith, highest_suffix_above parent width more h)
      | inr (n, counted) ↦
          let step = highest_suffix_take parent width a more h n counted in
          let rest = highest_suffix_above parent width more (max_ℕ h n) in
          let bigger : h ≤ max_ℕ h n = ground arith in omega arith
    ]

-- Every number that counts is at most `top`.
abbrev pub AllBelow : CodedAccount → ℕ → ℕ → List CodedAccount → Type 0
AllBelow parent width top accounts =
    All (λ a. (n : ℕ) → counted_suffix parent width a ≡ some n → n ≤ top) accounts

pub highest_suffix_covers :
    (parent : CodedAccount) (width : ℕ) (accounts : List CodedAccount) (h : ℕ)
    → AllBelow parent width (highest_suffix parent width accounts h) accounts
highest_suffix_covers parent width [] h = tt
highest_suffix_covers parent width (a ∷ more) h =
    elim (Option-cases (counted_suffix parent width a)) [
      | inl skipped ↦
          subst (λ t. AllBelow parent width t (a ∷ more))
            (sym (highest_suffix_skip parent width a more h skipped))
            (λ n e. absurd (ground arith), highest_suffix_covers parent width more h)
      | inr (k, counted) ↦
          let above = highest_suffix_above parent width more (max_ℕ h k) in
          let bigger : k ≤ max_ℕ h k = ground arith in
          subst (λ t. AllBelow parent width t (a ∷ more))
            (sym (highest_suffix_take parent width a more h k counted))
            (
              λ n e. let same : k ≡ n = ground arith in omega arith,
              highest_suffix_covers parent width more (max_ℕ h k),
            )
    ]
