-- ===== src/Inventory/AccountMapping/Laws.antt =====
-- What a setting changes in the mapping, and what every mapped account is.
use markaz.Prelude.{
  ℕ, ◌≡◌, refl, ◌∙◌, sym, ap, ◌||◌, none, inl, inr, Bool, ◌&&◌, Option, some, List, [], ◌∷◌, arith,
  All, false, true, ◌==◌, Bool-cases, Option-cases, if◌then◌else◌,
}
use markaz.Store.{Account, AccountType, asset_account, liability_account, Result-cases, ok}
use markaz.Inventory.AccountMapping.{
  AccountMappingKey, group_type, type_index, inventory, grni, project_issue_expense, count_loss,
  count_gain, accounts_payable, vat_input, purchase_price_variance, accounts_receivable,
  sales_revenue, vat_output, cost_of_goods_sold, salary_expense, gosi_employer_expense,
  gosi_payable, net_pay_payable, salary_advances_receivable, eosb_expense, eosb_payable,
  employee_advances_parent, employee_salary_payable_parent, employee_eosb_parent, AccountMapping,
  key_check, key_index, is_mapping, upsert, account_of, set, resolve,
}

abbrev pub same_slot : ℕ → AccountMappingKey → ℕ → AccountMappingKey → Bool
same_slot company key company' key' = (company == company') && (key_index key == key_index key')

-- A group of the type that is wanted, or a postable account where no group is.
abbrev pub FitsGroup : Option AccountType → Account → Type 0
FitsGroup (some type) a = (a.is_postable ≡ false) × (a.type ≡ type)
FitsGroup none a = a.is_postable ≡ true

-- The account of a mapped row is there and fits the row's key.
abbrev pub IsFitting : List Account → AccountMapping → Type 0
IsFitting accounts row =
    (a : Account) × (account_of row.company_id row.account_id accounts ≡ some a)
    × FitsGroup (group_type row.key) a

type_index-eq : (s t : AccountType) → (type_index s == type_index t) ≡ true → s ≡ t
type_index-eq s t h = ground arith

key_check-FitsGroup :
    (group : Option AccountType) (a : Account) → key_check group a ≡ ok tt → FitsGroup group a
key_check-FitsGroup none a e = ground arith
key_check-FitsGroup (some type) a e = elim (Bool-cases a.is_postable) [
  | inl leaf ↦ absurd (ground arith)
  | inr group ↦ elim (Bool-cases (type_index a.type == type_index type)) [
    | inl same ↦ (group, type_index-eq a.type type same)
    | inr other ↦ absurd (ground arith)
  ]
]

group_at : ℕ → Option AccountType
group_at n =
    if n == 19
    then some asset_account
    else if (n == 20) || (n == 21)
    then some liability_account
    else none

group_type-eq : (k : AccountMappingKey) → group_type k ≡ group_at (key_index k)
unfolding key_index group_at
group_type-eq inventory = refl
group_type-eq grni = refl
group_type-eq project_issue_expense = refl
group_type-eq count_loss = refl
group_type-eq count_gain = refl
group_type-eq accounts_payable = refl
group_type-eq vat_input = refl
group_type-eq purchase_price_variance = refl
group_type-eq accounts_receivable = refl
group_type-eq sales_revenue = refl
group_type-eq vat_output = refl
group_type-eq cost_of_goods_sold = refl
group_type-eq salary_expense = refl
group_type-eq gosi_employer_expense = refl
group_type-eq gosi_payable = refl
group_type-eq net_pay_payable = refl
group_type-eq salary_advances_receivable = refl
group_type-eq eosb_expense = refl
group_type-eq eosb_payable = refl
group_type-eq employee_advances_parent = refl
group_type-eq employee_salary_payable_parent = refl
group_type-eq employee_eosb_parent = refl

module _ (company : ℕ) (key : AccountMappingKey) (account_id : ℕ) where
  resolve-upsert :
      (company' : ℕ) (key' : AccountMappingKey) (rows : List AccountMapping)
      → resolve company' key' (upsert company key account_id rows) ≡ (
          if same_slot company key company' key'
          then some account_id
          else resolve company' key' rows)
  resolve-upsert company' key' [] = ground arith
  resolve-upsert company' key' (row ∷ rows) =
      let rest = resolve-upsert company' key' rows in
      elim (Bool-cases (is_mapping company key row)) [
        | inl here ↦ ground arith
        | inr elsewhere ↦ ground arith
      ]

  upsert-IsFitting :
      (accounts : List Account) (rows : List AccountMapping) (a : Account)
      → account_of company account_id accounts ≡ some a
      → FitsGroup (group_type key) a
      → All (IsFitting accounts) rows
      → All (IsFitting accounts) (upsert company key account_id rows)
  upsert-IsFitting accounts [] a there fits h = ((a, there, fits), tt)
  upsert-IsFitting accounts (row ∷ rows) a there fits h =
      elim (Bool-cases (is_mapping company key row)) [
        | inl here ↦
            let same : row.company_id ≡ company = ground arith in
            let at : key_index row.key ≡ key_index key = ground arith in
            let group : group_type row.key ≡ group_type key =
              group_type-eq row.key ∙ ap group_at at ∙ sym (group_type-eq key) in
            rw here ((a, rw same there, rw group fits), h.1)
        | inr elsewhere ↦ rw elsewhere (h.0, upsert-IsFitting accounts rows a there fits h.1)
      ]

  set_inv :
      (accounts : List Account) (rows rows' : List AccountMapping)
      → set key account_id company accounts rows ≡ ok rows'
      → (a : Account) × (account_of company account_id accounts ≡ some a)
        × FitsGroup (group_type key) a
        × (rows' ≡ upsert company key account_id rows)
  unfolding set
  set_inv accounts rows rows' e = elim (Option-cases (account_of company account_id accounts)) [
    | inl absent ↦ absurd (ground arith)
    | inr (a, there) ↦ elim (Result-cases (key_check (group_type key) a)) [
      | inl (u, fits) ↦
          (a, there, key_check-FitsGroup (group_type key) a (ground arith), ground arith)
      | inr (x, refused) ↦ absurd (ground arith)
    ]
  ]

  -- A setting that is accepted changes the account of its own key of its own company and of no other, and
  -- where every mapped account is there and fits its key (a group of the type that the key wants, or a
  -- postable account), that stays so.
  pub set_lem :
      (accounts : List Account) (rows rows' : List AccountMapping)
      → All (IsFitting accounts) rows
      → set key account_id company accounts rows ≡ ok rows'
      → All (IsFitting accounts) rows'
        × ((company' : ℕ) (key' : AccountMappingKey)
            → resolve company' key' rows' ≡ (
                if same_slot company key company' key'
                then some account_id
                else resolve company' key' rows))
  set_lem accounts rows rows' h e =
      let (a, there, fits, same) = set_inv accounts rows rows' e in
      rw same (
        upsert-IsFitting accounts rows a there fits h,
        λ company' key'. resolve-upsert company' key' rows,
      )
