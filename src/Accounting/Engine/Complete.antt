-- ===== src/Accounting/Engine/Complete.antt =====
-- The engine does not refuse what it should post: no check, constraint or trigger stops a well-formed
-- command in the company's own currency.
use markaz.Prelude.{
  ℕ, suc, ◌≤◌, ◌≡◌, refl, ◌∙◌, ap, ap₂, true, none, some, List, [], ◌∷◌, ◌++◌, map, arith, length,
  All, ◌==◌, append-nil,
}
use markaz.Prelude.Int.{pos, ◌≤ℤ◌, eq_ℤ_refl}
use markaz.Prelude.Sums.{sum_by}
use markaz.Decimals.{Decimal, Arithmetic, IsArithmetic, one}
use markaz.Store.{Db, FiscalPeriod, JournalEntryLine, ok}
use markaz.Accounting.Numbering.Gapless.{next_id-le-counter_after}
use markaz.Accounting.Engine.Command.{
  JournalLineInput, PostingCommand, or_zero, find_entry, find_period, accounts_ok, is_open,
  validate_shape,
}
use markaz.Accounting.Engine.Constraints.{
  is_one_sided, line_check, all_lines, lines_of, balances, all_balance, commit, transaction,
}
use markaz.Accounting.Engine.Post.{rate_of, line_rows, post_entry_in, post_entry}
use markaz.Accounting.Engine.Shape.{HasOneSide, total_debit, total_credit, validate_shape_iff}
use markaz.Accounting.Engine.Ledger.{IsLedger, AllOf, lines_of-append, lines_of_own, lines_of_below}
use markaz.Accounting.Engine.Posted.{
  entry_id, entry_number, posted_rows, posted_db, CanPost, post_new_entry_ok,
}
use markaz.Accounting.Engine.Soundness.{line_rows-AllOf, length-line_rows}

-- Neither amount is negative, and the columns store both as they are.
abbrev pub IsStorable : Arithmetic → JournalLineInput → Type 0
IsStorable m l =
    (pos 0 ≤ℤ or_zero l.debit)
    × (pos 0 ≤ℤ or_zero l.credit)
    × (m.column4 (or_zero l.debit) ≡ or_zero l.debit)
    × (m.column4 (or_zero l.credit) ≡ or_zero l.credit)

one_sided :
    (l : JournalLineInput)
    → HasOneSide l
    → pos 0 ≤ℤ or_zero l.debit
    → pos 0 ≤ℤ or_zero l.credit
    → is_one_sided (or_zero l.debit) (or_zero l.credit) ≡ true
one_sided l side d c = ground arith

module _ (m : Arithmetic) (laws : IsArithmetic m) (entry : ℕ) where
  rows_check :
      (id n : ℕ) (ls : List JournalLineInput)
      → All HasOneSide ls
      → All (IsStorable m) ls
      → all_lines line_check (line_rows m entry (one m) id n ls) ≡ true
  rows_check id n [] sides fit = refl
  rows_check id n (l ∷ ls) sides fit =
      let (d, c, fd, fc) = fit.0 in
      rw (laws.times_one (or_zero l.debit), laws.times_one (or_zero l.credit), fd, fc)
        (ground (arith, one_sided l sides.0 d c, rows_check (suc id) (suc n) ls sides.1 fit.1))

  rows_totals :
      (id n : ℕ) (ls : List JournalLineInput)
      → All (IsStorable m) ls
      → let rows = line_rows m entry (one m) id n ls in
        (sum_by (λ l. l.debit) rows ≡ total_debit ls)
        × (sum_by (λ l. l.credit) rows ≡ total_credit ls)
        × (sum_by (λ l. l.base_debit) rows ≡ total_debit ls)
        × (sum_by (λ l. l.base_credit) rows ≡ total_credit ls)
  rows_totals id n [] fit = (refl, refl, refl, refl)
  rows_totals id n (l ∷ ls) fit =
      let (d, c, fd, fc) = fit.0 in
      let (a, b, x, y) = rows_totals (suc id) (suc n) ls fit.1 in
      (
        rw (fd, a) refl,
        rw (fc, b) refl,
        rw (laws.times_one (or_zero l.debit), fd, x) refl,
        rw (laws.times_one (or_zero l.credit), fc, y) refl,
      )

rows_balance_again :
    (entry : ℕ) (rows table : List JournalEntryLine) (pending : List ℕ)
    → AllOf entry rows
    → balances (lines_of entry table) ≡ true
    → pending ≡ []
    → all_balance table (map (λ l. l.journal_entry_id) rows ++ pending) ≡ true
rows_balance_again entry [] table pending own even none_open = rw none_open refl
rows_balance_again entry (r ∷ rows) table pending own even none_open =
    rw (own.0, even) (rows_balance_again entry rows table pending own.1 even none_open)

even_rows :
    (ls : List JournalEntryLine) (t u : Decimal)
    → 2 ≤ length ls
    → (sum_by (λ l. l.debit) ls ≡ t)
      × (sum_by (λ l. l.credit) ls ≡ u)
      × (sum_by (λ l. l.base_debit) ls ≡ t)
      × (sum_by (λ l. l.base_credit) ls ≡ u)
    → t ≡ u
    → balances ls ≡ true
even_rows ls t u long sums same = ground (arith, eq_ℤ_refl u)

module _ (m : Arithmetic) (laws : IsArithmetic m) (command : PostingCommand) (period : FiscalPeriod)
    (db : Db) where
  -- What a well-formed command in the base currency asks of the tables.
  pub record IsPostable : Type 0 where
    pub ledger : IsLedger db
    pub base_currency : command.exchange_rate ≡ none
    pub shape : validate_shape command ≡ ok tt
    pub storable : All (IsStorable m) command.lines
    pub found : find_period command.fiscal_period_id db ≡ some period
    pub same_company : (period.company_id == command.company_id) ≡ true
    pub open_period : is_open period.status ≡ true
    pub postable : accounts_ok command.company_id db command.lines ≡ true
    pub new_key : find_entry command.company_id command.idempotency_key db ≡ none

  abbrev rows : List JournalEntryLine
  rows = posted_rows m command period db

  abbrev id : ℕ
  id = entry_id m command period db

  trigger_passes :
      IsPostable
      → all_balance
          (rows ++ db.journal_entry_lines)
          (map (λ l. l.journal_entry_id) rows ++ db.pending)
        ≡ true
  trigger_passes h =
      let (long, sides, equal) = (validate_shape_iff command).0 h.shape in
      let own = line_rows-AllOf m id (rate_of m command.exchange_rate) (suc id) 1 command.lines in
      let fresh =
        next_id-le-counter_after command.source_document_type command.company_id
          period.fiscal_year_name db in
      let sums = rows_totals m laws id (suc id) 1 command.lines h.storable in
      let mine : lines_of id (rows ++ db.journal_entry_lines) ≡ rows =
        lines_of-append id rows db.journal_entry_lines
        ∙ ap₂ ◌++◌ (lines_of_own id rows own)
            (lines_of_below id db.next_id db.journal_entry_lines h.ledger.fresh_lines fresh)
        ∙ append-nil rows in
      rows_balance_again id rows (rows ++ db.journal_entry_lines) db.pending own
        (ap balances mine
          ∙ rw h.base_currency (
              even_rows (line_rows m id (one m) (suc id) 1 command.lines)
                (total_debit command.lines) (total_credit command.lines)
                (omega (arith, length-line_rows m id (one m) (suc id) 1 command.lines)) sums equal))
        h.ledger.settled

  -- A well-formed command in the company's own currency, with amounts that the columns store as they
  -- are, is posted: it gets the id and the number that are next, and its rows are those of its lines.
  pub post_entry_succeeds :
      IsPostable
      → post_entry m command db
        ≡ ok (
            (
              record { journal_entry_id = id; number = entry_number m command period db },
              record (posted_db m command period db) { pending = [] },
            ))
  unfolding post_entry post_entry_in transaction commit
  post_entry_succeeds h =
      let (long, sides, equal) = (validate_shape_iff command).0 h.shape in
      let can : CanPost m command period db = record {
        found = h.found;
        same_company = h.same_company;
        open_period = h.open_period;
        postable = h.postable;
        new_key = h.new_key;
        checked =
            rw h.base_currency (rows_check m laws id (suc id) 1 command.lines sides h.storable);
      } in
      ground
        (arith, h.shape, h.new_key, post_new_entry_ok m command period db can, trigger_passes h)
