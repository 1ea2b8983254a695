-- ===== src/Accounting/AccountCode.antt =====
-- packages/core/src/accounting/account-code.ts: the next free code under an account.
pub mod Climb
pub mod Laws
pub mod Scan
pub mod Children
use markaz.Prelude.{
  ℕ, zero, suc, ◌+◌, ◌-◌, Bool, true, false, ◌&&◌, Option, none, some, List, [], ◌∷◌, ◌++◌, leb,
  ◌==◌, if◌then◌else◌, length,
}
use markaz.Prelude.Text.{Text, text_eq, value, pad_start, show, pow10}

pub record CodedAccount : Type 0 where
  pub id : ℕ
  pub code : Text
  pub parent_id : Option ℕ

-- `byId.get`: of two accounts with one id the map keeps the last.
abbrev pub by_id : ℕ → List CodedAccount → Option CodedAccount
by_id id [] = none
by_id id (a ∷ more) = elim (by_id id more) [
  | some later ↦ some later
  | none ↦ if a.id == id then some a else none
]

abbrev pub has_id : List ℕ → ℕ → Bool
has_id [] id = false
has_id (k ∷ ks) id = if k == id then true else has_id ks id

-- The account that the loop of `levelOf` goes on to, where it goes on.
abbrev pub next_up : List CodedAccount → List ℕ → CodedAccount → Option CodedAccount
next_up accounts seen current = elim current.parent_id [
  | none ↦ none
  | some parent_id ↦ elim (by_id parent_id accounts) [
    | none ↦ none
    | some parent ↦ if has_id seen parent.id then none else some parent
  ]
]

-- The loop; `none` where it would go on and the fuel is used up.
unfoldable pub climb : ℕ → List CodedAccount → List ℕ → CodedAccount → ℕ → Option ℕ
climb zero accounts seen current level = elim (next_up accounts seen current) [
  | none ↦ some level
  | some parent ↦ none
]
climb (suc fuel) accounts seen current level = elim (next_up accounts seen current) [
  | none ↦ some level
  | some parent ↦ climb fuel accounts (parent.id ∷ seen) parent (suc level)
]

unfoldable pub level_of : CodedAccount → List CodedAccount → Option ℕ
level_of account accounts = climb (length accounts) accounts (account.id ∷ []) account 1

abbrev pub suffix_width : ℕ → ℕ
suffix_width parent_level = if leb parent_level 1 then 1 else if parent_level == 2 then 3 else 2

abbrev pub first_suffix : ℕ → ℕ
first_suffix parent_level = if parent_level == 2 then 101 else 1

-- `startsWith` and `slice`: what follows the prefix.
abbrev pub after_prefix : Text → Text → Option Text
after_prefix [] t = some t
after_prefix (c ∷ prefix) [] = none
after_prefix (c ∷ prefix) (d ∷ t) = elim (d == c) [ true ↦ after_prefix prefix t | false ↦ none ]

-- DIGITS_ONLY, on a text that is not empty.
abbrev pub digits_only : Text → Bool
digits_only [] = true
digits_only (c ∷ t) = (leb 48 c && leb c 57) && digits_only t

abbrev pub is_child : ℕ → CodedAccount → Bool
is_child parent_id child = elim child.parent_id [ none ↦ false | some id ↦ id == parent_id ]

-- The number that a child's code adds to its parent's, where it counts.
abbrev pub counted_suffix : CodedAccount → ℕ → CodedAccount → Option ℕ
counted_suffix parent width child =
    if is_child parent.id child
    then elim (after_prefix parent.code child.code) [
      | none ↦ none
      | some suffix ↦
          if (length suffix == width) && digits_only suffix then some (value suffix) else none
    ]
    else none

abbrev pub max_ℕ : ℕ → ℕ → ℕ
max_ℕ a b = if leb a b then b else a

-- The loop over the accounts.
abbrev pub highest_suffix : CodedAccount → ℕ → List CodedAccount → ℕ → ℕ
highest_suffix parent width [] highest = highest
highest_suffix parent width (child ∷ more) highest = elim (counted_suffix parent width child) [
  | none ↦ highest_suffix parent width more highest
  | some n ↦ highest_suffix parent width more (max_ℕ highest n)
]

abbrev pub is_taken : Text → List CodedAccount → Bool
is_taken code [] = false
is_taken code (a ∷ more) = if text_eq a.code code then true else is_taken code more

abbrev pub code_of : CodedAccount → ℕ → ℕ → Text
code_of parent width n = parent.code ++ pad_start width (show n)

-- The last loop: `steps` numbers from `n` on.
abbrev pub first_free : List CodedAccount → CodedAccount → ℕ → ℕ → ℕ → Option Text
first_free accounts parent width zero n = none
first_free accounts parent width (suc steps) n =
    let rest = first_free accounts parent width steps (suc n) in
    if is_taken (code_of parent width n) accounts then rest else some (code_of parent width n)

abbrev pub first_number : ℕ → ℕ → ℕ
first_number highest parent_level = if highest == 0 then first_suffix parent_level else suc highest

-- `suggestNextChildCode`, under a parent of a known level.
abbrev pub suggest_under : List CodedAccount → CodedAccount → ℕ → Option Text
suggest_under accounts parent parent_level =
    let width = suffix_width parent_level in
    let start = first_number (highest_suffix parent width accounts 0) parent_level in
    first_free accounts parent width (pow10 width - start) start

-- The outer option is the loop of `levelOf`; the inner one is the `null` of the source.
unfoldable pub suggest_next_child_code : List CodedAccount → ℕ → Option (Option Text)
suggest_next_child_code accounts parent_id = elim (by_id parent_id accounts) [
  | none ↦ some none
  | some parent ↦ elim (level_of parent accounts) [
    | none ↦ none
    | some parent_level ↦ some (suggest_under accounts parent parent_level)
  ]
]
