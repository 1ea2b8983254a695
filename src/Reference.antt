-- ===== src/Reference.antt =====
-- packages/core/src/reference.ts: references of master data and numbers of documents that are not
-- journal entries, from the same series as the numbers of entries.
pub mod Laws
use markaz.Prelude.{ℕ, ◌≡◌, Option, none, some, List, [], ◌∷◌, ◌++◌}
use markaz.Prelude.Text.{Text, codes}
use markaz.Store.{Db, DocumentNumberSeries, Action, ◌>>=◌, ◌>>◌, modify, new_id, find}
use markaz.Accounting.Numbering.{is_series, insert_series, next}

pub data RefKind : Type 0 where
  user_ref role_ref party_ref account_ref warehouse_ref item_ref employee_ref : RefKind

-- REF_PREFIXES.
abbrev pub ref_prefix : RefKind → Text
ref_prefix user_ref = codes "USR"
ref_prefix role_ref = codes "ROL"
ref_prefix party_ref = codes "PRT"
ref_prefix account_ref = codes "ACC"
ref_prefix warehouse_ref = codes "WHS"
ref_prefix item_ref = codes "ITM"
ref_prefix employee_ref = codes "EMP"

abbrev pub ref_padding : ℕ
ref_padding = 6

abbrev pub prefixed_series : ℕ → ℕ → Text → Text → Text → DocumentNumberSeries
prefixed_series id company_id document_type fiscal_year prefix = record {
  id = id;
  company_id = company_id;
  document_type = document_type;
  fiscal_year = fiscal_year;
  prefix = prefix;
  padding = ref_padding;
  last_number = 0;
}

-- INSERT ... ON CONFLICT DO NOTHING.
abbrev pub insert_absent : DocumentNumberSeries → Db → Db
insert_absent s db =
    elim (find (is_series s.company_id s.document_type s.fiscal_year) db.document_number_series) [
      | some row ↦ db
      | none ↦ insert_series s db
    ]

abbrev pub ensure_series : ℕ → Text → Text → Text → Action (Unit {0})
ensure_series company_id document_type fiscal_year prefix = do
  id ← new_id
  modify (insert_absent (prefixed_series id company_id document_type fiscal_year prefix))

unfoldable pub allocate_ref : ℕ → RefKind → Action Text
allocate_ref company_id kind = do
  ensure_series company_id (codes "REF_" ++ ref_prefix kind) (codes "ALL")
      (ref_prefix kind ++ codes "-")
  next (codes "REF_" ++ ref_prefix kind) company_id (codes "ALL")

unfoldable pub allocate_document_number : ℕ → Text → Text → Text → Action Text
allocate_document_number company_id document_type prefix fiscal_year = do
  ensure_series company_id document_type fiscal_year
      (prefix ++ (codes "-" ++ (fiscal_year ++ codes "-")))
  next document_type company_id fiscal_year
