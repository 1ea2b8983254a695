-- ===== src/Accounting/AccountCode/Children.antt =====
-- What the codes of accounts say: which children of an account are coded under it, with which number, and
-- which codes are in use.
use markaz.Prelude.{
  ℕ, suc, ◌≤◌, ◌≡◌, ◌≢◌, refl, sym, ◌∙◌, ap, ap₂, ◌⊎◌, inl, inr, true, false, ◌&&◌, some, All, List,
  [], ◌∷◌, ◌++◌, ◌==◌, arith, length, Bool-cases, Option-cases, subst,
}
use markaz.Prelude.Text.{Text, text_eq, text_eq_refl, text_eq→eq, value}
use markaz.Accounting.AccountCode.{
  CodedAccount, after_prefix, digits_only, counted_suffix, highest_suffix, max_ℕ, is_taken,
  suffix_width, first_number,
}
use markaz.Accounting.AccountCode.Scan.{
  AllBelow, highest_suffix_covers, highest_suffix_skip, highest_suffix_take,
}

-- A child of the parent whose code is the parent's and just `width` digits, which make the number.
abbrev pub IsCoded : CodedAccount → ℕ → ℕ → CodedAccount → Type 0
IsCoded parent width n a =
    (a.parent_id ≡ some parent.id)
    × ((digits : Text) × (a.code ≡ parent.code ++ digits)
        × (length digits ≡ width)
        × (digits_only digits ≡ true)
        × (value digits ≡ n))

-- An account has the code.
abbrev pub HasCode : Text → List CodedAccount → Type 0
HasCode code [] = ⊥
HasCode code (a ∷ more) = (a.code ≡ code) ⊎ HasCode code more

-- A child coded under the parent has the number.
abbrev pub IsUsed : CodedAccount → ℕ → ℕ → List CodedAccount → Type 0
IsUsed parent width n [] = ⊥
IsUsed parent width n (a ∷ more) = IsCoded parent width n a ⊎ IsUsed parent width n more

-- The highest number of the children that are coded under the parent, 0 where none is.
abbrev pub IsTop : CodedAccount → ℕ → ℕ → List CodedAccount → Type 0
IsTop parent width top accounts =
    All (λ a. (n : ℕ) → IsCoded parent width n a → n ≤ top) accounts
    × ((top ≡ 0) ⊎ IsUsed parent width top accounts)

-- One digit under the first level, three under the second, else two.
abbrev pub IsWidth : ℕ → ℕ → Type 0
IsWidth level width =
    ((level ≤ 1) × (width ≡ 1)) ⊎ (((level ≡ 2) × (width ≡ 3)) ⊎ ((3 ≤ level) × (width ≡ 2)))

-- The number after the highest; the first one is 101 under the second level, else 1.
abbrev pub IsStart : ℕ → ℕ → ℕ → Type 0
IsStart level top start =
    ((1 ≤ top) × (start ≡ suc top))
    ⊎ (((top ≡ 0) × (level ≡ 2) × (start ≡ 101)) ⊎ ((top ≡ 0) × (level ≢ 2) × (start ≡ 1)))

pub suffix_width-IsWidth : (level : ℕ) → IsWidth level (suffix_width level)
suffix_width-IsWidth level = ground arith

pub first_number-IsStart : (level top : ℕ) → IsStart level top (first_number top level)
first_number-IsStart level top = elim (Bool-cases (top == 0)) [
  | inr some_used ↦ rw some_used (inl (ground arith, refl))
  | inl fresh ↦ elim (Bool-cases (level == 2)) [
    | inl second ↦ rw (fresh, second) (inr (inl (ground arith, ground arith, refl)))
    | inr other ↦ rw (fresh, other) (inr (inr (ground arith, (λ e. absurd (ground arith)), refl)))
  ]
]

after_prefix_inv :
    (prefix t suffix : Text) → after_prefix prefix t ≡ some suffix → t ≡ prefix ++ suffix
after_prefix_inv [] t suffix e = ground arith
after_prefix_inv (c ∷ prefix) [] suffix e = absurd (ground arith)
after_prefix_inv (c ∷ prefix) (d ∷ t) suffix e = elim (Bool-cases (d == c)) [
  | inr other ↦ absurd (ground arith)
  | inl same ↦
      let first : d ≡ c = ground arith in
      ap₂ (λ x xs. x ∷ xs) first (after_prefix_inv prefix t suffix (ground arith))
]

after_prefix-append : (prefix suffix : Text) → after_prefix prefix (prefix ++ suffix) ≡ some suffix
after_prefix-append [] suffix = refl
after_prefix-append (c ∷ prefix) suffix =
    let same : (c == c) ≡ true = ground arith in
    rw (after_prefix, same) (after_prefix-append prefix suffix)

pub counted_suffix-IsCoded :
    (parent : CodedAccount) (width : ℕ) (a : CodedAccount) (n : ℕ)
    → counted_suffix parent width a ≡ some n
    → IsCoded parent width n a
counted_suffix-IsCoded parent width a n e = elim (Option-cases a.parent_id) [
  | inl root ↦ absurd (ground arith)
  | inr (id, there) ↦ elim (Bool-cases (id == parent.id)) [
    | inr other ↦ absurd (ground arith)
    | inl own ↦
        let same : id ≡ parent.id = ground arith in
        elim (Option-cases (after_prefix parent.code a.code)) [
          | inl apart ↦ absurd (ground arith)
          | inr (digits, found) ↦
              elim (Bool-cases ((length digits == width) && digits_only digits)) [
                | inr odd ↦ absurd (ground arith)
                | inl fits ↦ (
                  there ∙ ap some same,
                  (
                    digits,
                    after_prefix_inv parent.code a.code digits found,
                    ground arith,
                    ground arith,
                    ground arith,
                  ),
                )
              ]
        ]
  ]
]

pub IsCoded-counted_suffix :
    (parent : CodedAccount) (width : ℕ) (a : CodedAccount) (n : ℕ)
    → IsCoded parent width n a
    → counted_suffix parent width a ≡ some n
IsCoded-counted_suffix parent width a n (own, (digits, spelled, long, are, number)) =
    let own_id : (parent.id == parent.id) ≡ true = ground arith in
    let wide : (length digits == width) ≡ true = ground arith in
    rw (own, own_id, spelled, after_prefix-append parent.code digits, wide, are, number) refl

pub is_taken-HasCode :
    (code : Text) (accounts : List CodedAccount)
    → is_taken code accounts ≡ true
    → HasCode code accounts
is_taken-HasCode code [] e = absurd (ground arith)
is_taken-HasCode code (a ∷ more) e = elim (Bool-cases (text_eq a.code code)) [
  | inl same ↦ inl (text_eq→eq a.code code same)
  | inr other ↦ inr (is_taken-HasCode code more (ground arith))
]

pub is_taken-free :
    (code : Text) (accounts : List CodedAccount)
    → is_taken code accounts ≡ false
    → All (λ a. a.code ≢ code) accounts
is_taken-free code [] e = tt
is_taken-free code (a ∷ more) e = elim (Bool-cases (text_eq a.code code)) [
  | inl same ↦ absurd (ground arith)
  | inr other ↦ (
    λ h. let equal : text_eq a.code code ≡ true = rw h (text_eq_refl code) in absurd (ground arith),
    is_taken-free code more (ground arith),
  )
]

above-IsCoded :
    (parent : CodedAccount) (width top : ℕ) (accounts : List CodedAccount)
    → AllBelow parent width top accounts
    → All (λ a. (n : ℕ) → IsCoded parent width n a → n ≤ top) accounts
above-IsCoded parent width top [] h = tt
above-IsCoded parent width top (a ∷ more) h = (
  λ n coded. h.0 n (IsCoded-counted_suffix parent width a n coded),
  above-IsCoded parent width top more h.1,
)

highest_suffix-IsUsed :
    (parent : CodedAccount) (width : ℕ) (accounts : List CodedAccount) (h : ℕ)
    → (highest_suffix parent width accounts h ≡ h)
      ⊎ IsUsed parent width (highest_suffix parent width accounts h) accounts
highest_suffix-IsUsed parent width [] h = inl refl
highest_suffix-IsUsed parent width (a ∷ more) h =
    elim (Option-cases (counted_suffix parent width a)) [
      | inl skipped ↦
          subst (λ t. (t ≡ h) ⊎ IsUsed parent width t (a ∷ more))
            (sym (highest_suffix_skip parent width a more h skipped))
            (elim (highest_suffix-IsUsed parent width more h) [
              | inl same ↦ inl same
              | inr used ↦ inr (inr used)
            ])
      | inr (k, counted) ↦
          let coded = counted_suffix-IsCoded parent width a k counted in
          subst (λ t. (t ≡ h) ⊎ IsUsed parent width t (a ∷ more))
            (sym (highest_suffix_take parent width a more h k counted))
            (elim (highest_suffix-IsUsed parent width more (max_ℕ h k)) [
              | inr used ↦ inr (inr used)
              | inl same ↦ elim (max_cases h k) [
                | inl old ↦ inl (same ∙ old)
                | inr new ↦
                    inr (inl (subst (λ n. IsCoded parent width n a) (sym (same ∙ new)) coded))
              ]
            ])
    ]
  where
    max_cases : (h k : ℕ) → (max_ℕ h k ≡ h) ⊎ (max_ℕ h k ≡ k)
    max_cases h k = ground arith

pub highest_suffix-IsTop :
    (parent : CodedAccount) (width : ℕ) (accounts : List CodedAccount)
    → IsTop parent width (highest_suffix parent width accounts 0) accounts
highest_suffix-IsTop parent width accounts = (
  above-IsCoded parent width (highest_suffix parent width accounts 0) accounts
      (highest_suffix_covers parent width accounts 0),
  highest_suffix-IsUsed parent width accounts 0,
)
