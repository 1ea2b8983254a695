-- ===== src/Accounting/Numbering.antt =====
-- packages/core/src/accounting/numbering.service.ts: gapless document numbers, one series for each
-- company, document type and fiscal year.
pub mod Laws
pub mod Gapless
use markaz.Prelude.{
  ℕ, zero, suc, ◌+◌, ◌≡◌, Bool, true, false, ◌&&◌, Option, none, some, List, [], ◌∷◌, ◌++◌, arith,
  ◌==◌, if◌then◌else◌,
}
use markaz.Prelude.Text.{Text, text_eq, show, pad_start}
use markaz.Store.{Db, DocumentNumberSeries, Action, ◌>>=◌, ◌>>◌, pure, gets, modify, new_id, find}

-- The WHERE of the locking SELECT.
abbrev pub is_series : ℕ → Text → Text → DocumentNumberSeries → Bool
is_series company_id document_type fiscal_year s =
    s.company_id == company_id
    && text_eq s.document_type document_type
    && text_eq s.fiscal_year fiscal_year

-- The row that a first document creates, with the column defaults of the schema.
abbrev pub fresh_series : ℕ → Text → Text → ℕ → DocumentNumberSeries
fresh_series company_id document_type fiscal_year id = record {
  id = id;
  company_id = company_id;
  document_type = document_type;
  fiscal_year = fiscal_year;
  prefix = [];
  padding = 6;
  last_number = 0;
}

abbrev pub insert_series : DocumentNumberSeries → Db → Db
insert_series s db = record db { document_number_series = s ∷ db.document_number_series }

-- `update({ where: { id } })`.
abbrev pub set_last_number : ℕ → ℕ → List DocumentNumberSeries → List DocumentNumberSeries
set_last_number id n [] = []
set_last_number id n (s ∷ ss) =
    (if s.id == id then record s { last_number = n } else s) ∷ set_last_number id n ss

abbrev pub format_number : Text → ℕ → ℕ → Text
format_number prefix padding n = prefix ++ pad_start padding (show n)

unfoldable pub create_series : ℕ → Text → Text → Action DocumentNumberSeries
create_series company_id document_type fiscal_year = do
  id ← new_id
  let created = fresh_series company_id document_type fiscal_year id
  modify (insert_series created)
  pure created

-- `locked[0]`, or the series created now.
unfoldable pub series_row : ℕ → Text → Text → Action DocumentNumberSeries
unfolding create_series
series_row company_id document_type fiscal_year db =
    elim (find (is_series company_id document_type fiscal_year) db.document_number_series) [
      | some row ↦ pure row db
      | none ↦ create_series company_id document_type fiscal_year db
    ]

unfoldable pub next : Text → ℕ → Text → Action Text
unfolding series_row
next document_type company_id fiscal_year = do
  row ← series_row company_id document_type fiscal_year
  let next_number = row.last_number + 1
  modify λ db. record db {
    document_number_series = set_last_number row.id next_number db.document_number_series;
  }
  pure (format_number row.prefix row.padding next_number)
