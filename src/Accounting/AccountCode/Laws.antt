-- ===== src/Accounting/AccountCode/Laws.antt =====
-- A suggested code is free and the next one.
use markaz.Prelude.{
  ℕ, zero, suc, ◌+◌, ◌-◌, ◌≤◌, ◌<◌, ◌≡◌, ◌≢◌, ◌∙◌, ap, All, ◌⊎◌, inl, inr, none, some, List, [],
  ◌∷◌, ◌++◌, length, arith, Option-cases,
}
use markaz.Prelude.Text.{Text, pad_start, show, pow10, length-pad_start_fits, length-show}
use markaz.Accounting.AccountCode.Climb.{level_of_ends}
use markaz.Accounting.AccountCode.{
  CodedAccount, by_id, level_of, suffix_width, highest_suffix, code_of, first_number, suggest_under,
  suggest_next_child_code,
}
use markaz.Accounting.AccountCode.Scan.{AllTaken, first_free_lem, first_free-none}
use markaz.Accounting.AccountCode.Children.{
  HasCode, IsWidth, IsTop, IsStart, is_taken-HasCode, is_taken-free, suffix_width-IsWidth,
  first_number-IsStart, highest_suffix-IsTop,
}

padded : (w n : ℕ) → 1 ≤ w → n < pow10 w → length (pad_start w (show n)) ≡ w
padded zero n pos small = absurd (omega arith)
padded (suc w) n pos small = length-pad_start_fits (suc w) (show n) (length-show w n small)

width_pos : (level : ℕ) → 1 ≤ suffix_width level
width_pos level = ground arith

length-append : (s t : Text) → length (s ++ t) ≡ length s + length t
length-append [] t = omega arith
length-append (c ∷ s) t = omega (arith, length-append s t)

-- Each number from `from` up to `to` is in use in the code of an account.
abbrev pub AreTaken : List CodedAccount → CodedAccount → ℕ → ℕ → ℕ → Type 0
AreTaken accounts parent width from to =
    (k : ℕ) → from ≤ k → k < to → HasCode (parent.code ++ pad_start width (show k)) accounts

pub record IsNextCode (accounts : List CodedAccount) (parent : CodedAccount) (level : ℕ)
    (code : Text) : Type 0 where
  pub width : ℕ
  pub is_width : IsWidth level width
  pub top : ℕ
  pub is_top : IsTop parent width top accounts
  pub start : ℕ
  pub is_start : IsStart level top start
  pub number : ℕ
  pub spelled : code ≡ parent.code ++ pad_start width (show number)
  pub measured : length code ≡ length parent.code + width
  pub free : All (λ a. a.code ≢ code) accounts
  pub above : start ≤ number
  pub nearest : AreTaken accounts parent width start number

are_taken :
    (accounts : List CodedAccount) (parent : CodedAccount) (width from to : ℕ)
    → AllTaken accounts parent width from to
    → AreTaken accounts parent width from to
are_taken accounts parent width from to h k low high =
    is_taken-HasCode (code_of parent width k) accounts (h k low high)

-- A code that is suggested is no account's. It is the code of the parent followed by a number of just the
-- width that the parent's level decides; the number is the first, from the one after the highest of the
-- children that are coded so (101 or 1 where none is), whose code is not taken: gaps are not filled.
pub suggest_next_child_code_lem :
    (accounts : List CodedAccount) (parent_id : ℕ) (code : Text)
    → suggest_next_child_code accounts parent_id ≡ some (some code)
    → (parent : CodedAccount) × (level : ℕ) × (by_id parent_id accounts ≡ some parent)
      × (level_of parent accounts ≡ some level)
      × IsNextCode accounts parent level code
unfolding suggest_next_child_code
suggest_next_child_code_lem accounts parent_id code e =
    elim (Option-cases (by_id parent_id accounts)) [
      | inl unknown ↦ absurd (ground arith)
      | inr (parent, there) ↦
          let (level, ended, _, _) = level_of_ends parent accounts in
          let found : suggest_under accounts parent level ≡ some code = ground arith in
          let width = suffix_width level in
          let top = highest_suffix parent width accounts 0 in
          let start = first_number top level in
          let (k, same, free, low, high, taken) =
            first_free_lem accounts parent width (pow10 width - start) start code found in
          let fits : length (pad_start width (show k)) ≡ width =
            padded width k (width_pos level) (omega arith) in
          (
            parent,
            level,
            there,
            ended,
            record {
              width = width;
              is_width = suffix_width-IsWidth level;
              top = top;
              is_top = highest_suffix-IsTop parent width accounts;
              start = start;
              is_start = first_number-IsStart level top;
              number = k;
              spelled = same;
              measured =
                  ap length same
                  ∙ length-append parent.code (pad_start width (show k))
                  ∙ ap (λ n. length parent.code + n) fits;
              free = is_taken-free code accounts free;
              above = low;
              nearest = are_taken accounts parent width start k taken;
            },
          )
    ]

-- No code is suggested only where the parent is not known, or where every number is taken that the width
-- of the parent's level has room for, from the one after the highest of the children that are coded so
-- (from 101 or 1 where none is).
pub suggest_next_child_code_null :
    (accounts : List CodedAccount) (parent_id : ℕ)
    → suggest_next_child_code accounts parent_id ≡ some none
    → (by_id parent_id accounts ≡ none)
      ⊎ ((parent : CodedAccount) × (level : ℕ) × (width : ℕ) × (top : ℕ) × (start : ℕ) × (by_id
              parent_id accounts
            ≡ some parent)
          × (level_of parent accounts ≡ some level)
          × IsWidth level width
          × IsTop parent width top accounts
          × IsStart level top start
          × AreTaken accounts parent width start (pow10 width))
unfolding suggest_next_child_code
suggest_next_child_code_null accounts parent_id e = elim (Option-cases (by_id parent_id accounts)) [
  | inl unknown ↦ inl unknown
  | inr (parent, there) ↦
      let (level, ended, _, _) = level_of_ends parent accounts in
      let found : suggest_under accounts parent level ≡ none = ground arith in
      let width = suffix_width level in
      let top = highest_suffix parent width accounts 0 in
      let start = first_number top level in
      let taken = first_free-none accounts parent width (pow10 width - start) start found in
      inr (
        parent,
        level,
        width,
        top,
        start,
        there,
        ended,
        suffix_width-IsWidth level,
        highest_suffix-IsTop parent width accounts,
        first_number-IsStart level top,
        are_taken accounts parent width start (pow10 width)
            (λ k low high. taken k low (omega arith)),
      )
]
