-- ===== src/Inventory/StockIssue/Context.antt =====
-- What `create` of a stock issue reads first and writes last.
use markaz.Prelude.{
  ◌+◌, ◌≤◌, ◌≡◌, inl, inr, false, ◌&&◌, some, List, map, arith, ◌==◌, Bool-cases, Option-cases,
  length,
}
use markaz.Prelude.Text.{codes, text_eq}
use markaz.Decimals.{Arithmetic, negated}
use markaz.Store.{ok, find}
use markaz.Accounting.FiscalYear.{company_currency}
use markaz.Accounting.Engine.Post.{find_open_fiscal_period}
use markaz.Inventory.AccountMapping.{inventory, project_issue_expense, resolve}
use markaz.Inventory.Stock.{
  StockDb, StockIssue, StockActor, LineRecord, issue_movement, is_there, has_warehouse, has_items,
  document_line_check, movement_check, passes,
}
use markaz.Inventory.StockDocument.{PostingContext, document_lines, movement_rows}
use markaz.Inventory.StockIssue.{CreateStockIssueInput, is_empty, issue_context, write_issue}

pub issue_context_inv :
    (input : CreateStockIssueInput) (actor : StockActor) (db db' : StockDb)
    (context : PostingContext)
    → issue_context input actor db ≡ ok (context, db')
    → (db' ≡ db)
      × (resolve actor.company_id project_issue_expense db.account_mappings
          ≡ some context.debit_account_id)
      × (resolve actor.company_id inventory db.account_mappings ≡ some context.credit_account_id)
unfolding issue_context
issue_context_inv input actor db db' context e = elim (Bool-cases (is_empty input.lines)) [
  | inl nothing ↦ absurd (ground arith)
  | inr some_lines ↦ elim (Bool-cases (has_warehouse actor.company_id input.warehouse_id db)) [
    | inr unknown ↦ absurd (ground arith)
    | inl known ↦
        elim (Bool-cases (has_items actor.company_id (map (λ l. l.item_id) input.lines) db)) [
          | inr missing ↦ absurd (ground arith)
          | inl there ↦ elim (Option-cases (company_currency actor.company_id db.companies)) [
            | inl no_company ↦ absurd (ground arith)
            | inr (currency, company) ↦
                elim (Option-cases
                  (find_open_fiscal_period actor.company_id input.document_date db.ledger)) [
                    | inl closed ↦ absurd (ground arith)
                    | inr (period, current) ↦
                        elim (Option-cases
                          (resolve actor.company_id project_issue_expense db.account_mappings)) [
                            | inl unmapped ↦ absurd (ground arith)
                            | inr (expense, charged) ↦
                                elim (Option-cases
                                  (resolve actor.company_id inventory db.account_mappings)) [
                                    | inl unmapped ↦ absurd (ground arith)
                                    | inr (stock, held) ↦ (ground arith, ground arith, ground arith)
                                  ]
                          ]
                  ]
          ]
        ]
  ]
]

pub write_issue_keeps :
    (m : Arithmetic) (row : StockIssue) (actor : StockActor) (records : List LineRecord)
    (db db' : StockDb) (u : Unit {0})
    → write_issue m row actor records db ≡ ok (u, db')
    → (db'.item_warehouse_stock ≡ db.item_warehouse_stock)
      × (db'.ledger.journal_entry_lines ≡ db.ledger.journal_entry_lines)
      × (db.ledger.next_id ≤ db'.ledger.next_id)
      × (is_there (
            find
              (λ i. (i.company_id == row.company_id) && text_eq i.number row.number)
              db.stock_issues)
          ≡ false)
unfolding write_issue
write_issue_keeps m row actor records db db' u e =
    let n = db.ledger.next_id in
    let lines = document_lines m row.id n 1 records in
    let movements =
      movement_rows m issue_movement negated (codes "stock_issue") actor row.correlation_id
        row.warehouse_id row.id row.journal_entry_id (n + length records) records in
    elim (Bool-cases (
      is_there (
        find (λ i. (i.company_id == row.company_id) && text_eq i.number row.number)
          db.stock_issues))) [
            | inl twice ↦ absurd (ground arith)
            | inr once ↦ elim (Bool-cases (passes document_line_check lines)) [
              | inr refused ↦ absurd (ground arith)
              | inl accepted ↦ elim (Bool-cases (passes movement_check movements)) [
                | inr refused ↦ absurd (ground arith)
                | inl moved ↦ (ground arith, ground arith, ground arith, once)
              ]
            ]
          ]
