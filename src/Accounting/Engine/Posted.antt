-- ===== src/Accounting/Engine/Posted.antt =====
-- What a successful posting leaves in the tables, and when a posting succeeds.
use markaz.Prelude.{
  ℕ, suc, ◌+◌, ◌≡◌, ◌∙◌, sym, ap, inl, inr, true, none, some, List, ◌∷◌, ◌++◌, map, arith, length,
  Option-cases, ◌==◌,
}
use markaz.Prelude.Text.{Text}
use markaz.Decimals.{Arithmetic}
use markaz.Store.{Db, FiscalPeriod, JournalEntryLine, Result, ok, err}
use markaz.Accounting.Numbering.Gapless.{number_of, series_after, counter_after, next-eq}
use markaz.Accounting.Engine.Command.{
  PostingCommand, PostingResult, find_entry, find_period, accounts_ok, is_open,
}
use markaz.Accounting.Engine.Constraints.{line_check, all_lines, insert_entry, insert_lines}
use markaz.Accounting.Engine.Post.{rate_of, line_rows, posted_entry, post_new_entry}

abbrev value_or : {A : Type 0} → Result A → A → A
value_or (ok a) d = a
value_or (err e) d = d

module _ (m : Arithmetic) (command : PostingCommand) (period : FiscalPeriod) (db : Db) where
  abbrev pub entry_number : Text
  entry_number =
      number_of command.source_document_type command.company_id period.fiscal_year_name db

  -- The id of the new entry: the first one after the allocation of its number.
  abbrev pub entry_id : ℕ
  entry_id =
      counter_after command.source_document_type command.company_id period.fiscal_year_name db

  abbrev pub posted_rows : List JournalEntryLine
  posted_rows =
      line_rows m entry_id (rate_of m command.exchange_rate) (suc entry_id) 1 command.lines

  abbrev pub posted_db : Db
  posted_db = record db {
    document_number_series =
        series_after command.source_document_type command.company_id period.fiscal_year_name db;
    journal_entries = posted_entry m command entry_id entry_number ∷ db.journal_entries;
    journal_entry_lines = posted_rows ++ db.journal_entry_lines;
    pending = map (λ l. l.journal_entry_id) posted_rows ++ db.pending;
    next_id = suc entry_id + length command.lines;
  }

  -- What is checked on the way.
  pub record CanPost : Type 0 where
    pub found : find_period command.fiscal_period_id db ≡ some period
    pub same_company : (period.company_id == command.company_id) ≡ true
    pub open_period : is_open period.status ≡ true
    pub postable : accounts_ok command.company_id db command.lines ≡ true
    pub new_key : find_entry command.company_id command.idempotency_key db ≡ none
    pub checked : all_lines line_check posted_rows ≡ true

  pub post_new_entry_ok :
      CanPost
      → post_new_entry m command db
        ≡ ok ((record { journal_entry_id = entry_id; number = entry_number }, posted_db))
  unfolding post_new_entry insert_entry insert_lines
  post_new_entry_ok h =
      ground
        (arith, next-eq command.source_document_type command.company_id period.fiscal_year_name db)

module _ (m : Arithmetic) (command : PostingCommand) (db : Db) (r : PostingResult) (db' : Db)
    (posted : post_new_entry m command db ≡ ok (r, db')) where
  can_post :
      (p : FiscalPeriod) → find_period command.fiscal_period_id db ≡ some p → CanPost m command p db
  unfolding post_new_entry insert_entry insert_lines
  can_post p found =
      let numbered =
        next-eq command.source_document_type command.company_id p.fiscal_year_name db in
      record {
        found = found;
        same_company = ground (arith, numbered);
        open_period = ground (arith, numbered);
        postable = ground (arith, numbered);
        new_key = elim (Option-cases (find_entry command.company_id command.idempotency_key db)) [
          | inl absent ↦ absent
          | inr (x, there) ↦ absurd (ground (arith, numbered))
        ];
        checked = ground (arith, numbered);
      }

  period_found : (p : FiscalPeriod) × (find_period command.fiscal_period_id db ≡ some p)
  unfolding post_new_entry
  period_found = elim (Option-cases (find_period command.fiscal_period_id db)) [
    | inl absent ↦ absurd (ground arith)
    | inr found ↦ found
  ]

  -- Every success is of the form that `post_new_entry_ok` describes.
  pub post_new_entry_inv :
      (p : FiscalPeriod) × CanPost m command p db
      × (r ≡ record {
        journal_entry_id = entry_id m command p db;
        number = entry_number m command p db;
      })
      × (db' ≡ posted_db m command p db)
  post_new_entry_inv =
      let (p, found) = period_found in
      let h = can_post p found in
      let same = sym posted ∙ post_new_entry_ok m command p db h in
      (
        p,
        h,
        ap (λ s. (value_or {A = PostingResult × Db} s (r, db')).0) same,
        ap (λ s. (value_or {A = PostingResult × Db} s (r, db')).1) same,
      )
