-- ===== src/Inventory/AccountMapping.antt =====
-- packages/core/src/inventory/account-mapping.service.ts: which account each kind of amount is posted
-- to, per company. Rows are without their ids and without who changed them.
pub mod Laws
use markaz.Prelude.{
  ℕ, Bool, true, false, not, ◌&&◌, Option, none, some, List, [], ◌∷◌, ◌==◌, if◌then◌else◌,
}
use markaz.Store.{
  Account, AccountType, asset_account, liability_account, equity_account, revenue_account,
  expense_account, MappingErrorCode, mapped_account_not_found, mapped_account_not_postable,
  mapped_account_not_group, mapped_account_wrong_type, mapping_error, Result, ok, err, find,
}

pub data AccountMappingKey : Type 0 where
  inventory grni project_issue_expense count_loss count_gain accounts_payable vat_input
        purchase_price_variance accounts_receivable sales_revenue vat_output cost_of_goods_sold
        salary_expense gosi_employer_expense gosi_payable net_pay_payable salary_advances_receivable
        eosb_expense eosb_payable employee_advances_parent employee_salary_payable_parent
        employee_eosb_parent :
      AccountMappingKey

-- The place of a key in ACCOUNT_MAPPING_KEYS.
unfoldable pub key_index : AccountMappingKey → ℕ
key_index inventory = 0
key_index grni = 1
key_index project_issue_expense = 2
key_index count_loss = 3
key_index count_gain = 4
key_index accounts_payable = 5
key_index vat_input = 6
key_index purchase_price_variance = 7
key_index accounts_receivable = 8
key_index sales_revenue = 9
key_index vat_output = 10
key_index cost_of_goods_sold = 11
key_index salary_expense = 12
key_index gosi_employer_expense = 13
key_index gosi_payable = 14
key_index net_pay_payable = 15
key_index salary_advances_receivable = 16
key_index eosb_expense = 17
key_index eosb_payable = 18
key_index employee_advances_parent = 19
key_index employee_salary_payable_parent = 20
key_index employee_eosb_parent = 21

abbrev pub group_type : AccountMappingKey → Option AccountType
group_type employee_advances_parent = some asset_account
group_type employee_salary_payable_parent = some liability_account
group_type employee_eosb_parent = some liability_account
group_type _ = none

pub record AccountMapping : Type 0 where
  pub company_id : ℕ
  pub key : AccountMappingKey
  pub account_id : ℕ

abbrev pub type_index : AccountType → ℕ
type_index asset_account = 0
type_index liability_account = 1
type_index equity_account = 2
type_index revenue_account = 3
type_index expense_account = 4

-- What `set` asks of the account of a key: a group of the right type, or a postable account.
abbrev pub key_check : Option AccountType → Account → Result (Unit {0})
key_check (some group) account =
    if account.is_postable
    then err (mapping_error mapped_account_not_group)
    else if not (type_index account.type == type_index group)
    then err (mapping_error mapped_account_wrong_type)
    else ok tt
key_check none account =
    if account.is_postable then ok tt else err (mapping_error mapped_account_not_postable)

-- The unique key of the table.
abbrev pub is_mapping : ℕ → AccountMappingKey → AccountMapping → Bool
is_mapping company_id key row =
    (row.company_id == company_id) && (key_index row.key == key_index key)

-- `upsert` of a row whose key is not there is an insert.
abbrev pub upsert : ℕ → AccountMappingKey → ℕ → List AccountMapping → List AccountMapping
upsert company_id key account_id [] =
    record { company_id = company_id; key = key; account_id = account_id } ∷ []
upsert company_id key account_id (row ∷ rows) =
    if is_mapping company_id key row
    then record row { account_id = account_id } ∷ rows
    else row ∷ upsert company_id key account_id rows

abbrev pub account_of : ℕ → ℕ → List Account → Option Account
account_of company_id account_id accounts =
    find (λ a. (a.id == account_id) && (a.company_id == company_id)) accounts

unfoldable pub set :
    AccountMappingKey → ℕ → ℕ → List Account → List AccountMapping → Result (List AccountMapping)
set key account_id company_id accounts rows = elim (account_of company_id account_id accounts) [
  | none ↦ err (mapping_error mapped_account_not_found)
  | some account ↦ elim (key_check (group_type key) account) [
    | err e ↦ err e
    | ok u ↦ ok (upsert company_id key account_id rows)
  ]
]

abbrev pub resolve : ℕ → AccountMappingKey → List AccountMapping → Option ℕ
resolve company_id key rows = elim (find (is_mapping company_id key) rows) [
  | some mapping ↦ some mapping.account_id
  | none ↦ none
]
