-- ===== src/Tests/Engine.antt =====
-- A company with one open period and two accounts posts an entry and reverses it.
use markaz.Prelude.{ℕ, ◌≤◌, ◌≡◌, ◌↔◌, refl, All, length, true, none, some, [], ◌∷◌, arith}
use markaz.Prelude.Int.{pos, negsuc, ◌+ℤ◌}
use markaz.Prelude.Text.{Text, codes}
use markaz.Store.{
  Db, FiscalPeriod, period_open, Account, asset_account, revenue_account, Result, ok, err,
}
use markaz.Accounting.Numbering.{next as next_number, series_row, create_series}
use markaz.Accounting.Engine.Command.{
  JournalLineInput, PostingCommand, PostingResult, validate_shape,
}
use markaz.Accounting.Engine.Constraints.{commit, transaction, insert_entry, insert_lines}
use markaz.Accounting.Engine.Post.{posting_period, post_new_entry, post_entry_in, post_entry}
use markaz.Accounting.Engine.Reverse.{
  reversal_description, reversal_key, reverse_entry_in, reverse_entry,
}
use markaz.Accounting.Numbering.Gapless.{next_gapless}
use markaz.Accounting.Numbering.Laws.{last_allocated, SeriesBelow}
use markaz.Accounting.Engine.Shape.{HasOneSide, total_debit, total_credit, validate_shape_iff}
use markaz.Accounting.Engine.Ledger.{IsLedger}
use markaz.Accounting.Engine.Constraints.{lines_of}
use markaz.Accounting.Engine.Reversed.{net_of, base_net_of}
use markaz.Accounting.Engine.Soundness.{post_entry-IsLedger}
use markaz.Accounting.Engine.History.{Reach, here, next, posts, reverses, Reach-IsLedger}
use markaz.Accounting.Engine.Complete.{IsPostable, post_entry_succeeds}
use markaz.Accounting.Engine.Promises.{
  post_entry_replay, IsExtension, Reach-IsExtension, reverse_entry_cancels,
}
use markaz.Accounting.DecimalSum.{
  to_scaled_big_int, from_scaled_big_int, to_scaled_big_int-from_scaled_big_int,
}
use markaz.Tests.FourPlaces.{four_places, four_places-IsArithmetic}

abbrev period : FiscalPeriod
period = record {
  id = 1;
  company_id = 7;
  fiscal_year_name = codes "2026";
  start_date = 1;
  end_date = 365;
  status = period_open;
}

abbrev cash : Account
cash = record {
  id = 10;
  company_id = 7;
  code = codes "1000";
  parent_id = none;
  type = asset_account;
  is_postable = true;
  is_active = true;
}

abbrev sales : Account
sales = record cash { id = 20; code = codes "4000"; type = revenue_account }

abbrev db : Db
db = record {
  fiscal_periods = period ∷ [];
  accounts = cash ∷ sales ∷ [];
  document_number_series = [];
  journal_entries = [];
  journal_entry_lines = [];
  pending = [];
  next_id = 100;
}

abbrev debit_line : JournalLineInput
debit_line = record {
  account_id = 10;
  debit = some (pos 2500000);
  credit = none;
  description = none;
}

abbrev credit_line : JournalLineInput
credit_line = record {
  account_id = 20;
  debit = none;
  credit = some (pos 2500000);
  description = none;
}

abbrev command : PostingCommand
command = record {
  company_id = 7;
  fiscal_period_id = 1;
  entry_date = 40;
  posting_date = 40;
  currency = codes "SAR";
  exchange_rate = none;
  lines = debit_line ∷ credit_line ∷ [];
  source_module = codes "sales";
  source_document_type = codes "INV";
  source_document_id = 5;
  actor_id = 3;
  correlation_id = 9;
  idempotency_key = codes "k1";
}

abbrev tables : Result (PostingResult × Db) → Db → Db
tables (ok (r, db')) other = db'
tables (err e) other = other

abbrev result : Result (PostingResult × Db) → PostingResult
result (ok (r, db')) = r
result (err e) = record { journal_entry_id = 0; number = [] }

unfoldable posted : Result (PostingResult × Db)
posted = post_entry four_places command db

unfoldable reversed : Result (PostingResult × Db)
reversed = reverse_entry 101 (codes "typo") 3 9 50 (tables posted db)

posted_is_ok : posted ≡ ok (result posted, tables posted db)
unfolding posted commit transaction insert_entry insert_lines posting_period post_new_entry
    post_entry_in post_entry next_number series_row create_series validate_shape ◌+ℤ◌
posted_is_ok = refl

reversed_is_ok : reversed ≡ ok (result reversed, tables reversed db)
unfolding posted reversed commit transaction insert_entry insert_lines posting_period post_new_entry
    post_entry_in post_entry next_number series_row create_series validate_shape ◌+ℤ◌
    reversal_description reversal_key reverse_entry_in reverse_entry
reversed_is_ok = refl

db-IsLedger : IsLedger db
db-IsLedger = record {
  fresh_entries = tt;
  fresh_lines = tt;
  fresh_series = tt;
  settled = refl;
  balanced = tt;
  total = refl;
  base_total = refl;
}

abbrev after_posting : Db
after_posting = tables posted db

abbrev after_reversal : Db
after_reversal = tables reversed db

two_calls : Reach four_places db after_reversal
unfolding posted reversed
two_calls =
    next (next here (posts command (result posted) posted_is_ok))
      (reverses 101 (codes "typo") 3 9 50 (result reversed) reversed_is_ok)

Reach-IsLedger_example : IsLedger after_reversal
Reach-IsLedger_example = Reach-IsLedger four_places db-IsLedger two_calls

after_posting-IsLedger : IsLedger after_posting
unfolding posted
after_posting-IsLedger =
    post_entry-IsLedger four_places command db after_posting (result posted) db-IsLedger
      posted_is_ok

Reach-IsExtension_example : IsExtension db after_reversal
Reach-IsExtension_example = Reach-IsExtension four_places two_calls

post_entry_replay_example :
    post_entry four_places command after_posting ≡ ok (result posted, after_posting)
unfolding posted
post_entry_replay_example =
    post_entry_replay four_places command db after_posting (result posted) posted_is_ok

reverse_entry_cancels_example :
    (net_of 10 (lines_of (result reversed).journal_entry_id after_reversal.journal_entry_lines)
        +ℤ net_of 10 (lines_of 101 after_reversal.journal_entry_lines)
      ≡ pos 0)
    × (base_net_of 10
            (lines_of (result reversed).journal_entry_id after_reversal.journal_entry_lines)
          +ℤ base_net_of 10 (lines_of 101 after_reversal.journal_entry_lines)
        ≡ pos 0)
    × (lines_of 101 after_reversal.journal_entry_lines
        ≡ lines_of 101 after_posting.journal_entry_lines)
unfolding reversed
reverse_entry_cancels_example =
    reverse_entry_cancels 101 (codes "typo") 3 9 50 after_posting after_reversal (result reversed)
      after_posting-IsLedger reversed_is_ok 10

command-IsPostable : IsPostable four_places four_places-IsArithmetic command period db
unfolding validate_shape ◌+ℤ◌
command-IsPostable = record {
  ledger = db-IsLedger;
  base_currency = refl;
  shape = refl;
  storable = ((omega arith, omega arith, refl, refl), ((omega arith, omega arith, refl, refl), tt));
  found = refl;
  same_company = refl;
  open_period = refl;
  postable = refl;
  new_key = refl;
}

post_entry_succeeds_example : (p : PostingResult × Db) × (post_entry four_places command db ≡ ok p)
post_entry_succeeds_example = (
  _,
  post_entry_succeeds four_places four_places-IsArithmetic command period db command-IsPostable,
)

validate_shape_iff_example : (validate_shape command ≡ ok tt) ↔ (
    (2 ≤ length command.lines)
    × All HasOneSide command.lines
    × (total_debit command.lines ≡ total_credit command.lines))
validate_shape_iff_example = validate_shape_iff command

next_gapless_example :
    (number : Text) × (db' : Db) × (next_number (codes "INV") 7 (codes "2026") db
      ≡ ok (number, db'))
    × (last_allocated 7 (codes "INV") (codes "2026") db' ≡ 1)
    × ((c : ℕ) (d f : Text)
        → ¬ ((7 ≡ c) × (codes "INV" ≡ d) × (codes "2026" ≡ f))
        → last_allocated c d f db' ≡ last_allocated c d f db)
    × SeriesBelow db'.next_id db'.document_number_series
next_gapless_example = next_gapless (codes "INV") 7 (codes "2026") db tt

to_scaled_big_int-from_scaled_big_int_example :
    to_scaled_big_int (from_scaled_big_int (negsuc 12499)) ≡ some (negsuc 12499)
to_scaled_big_int-from_scaled_big_int_example = to_scaled_big_int-from_scaled_big_int (negsuc 12499)
