-- ===== src/Reference/Laws.antt =====
-- Numbers of documents carry their prefix and count up without gaps.
use markaz.Prelude.{
  ℕ, suc, ◌+◌, ◌≡◌, refl, ◌∙◌, ap, inl, inr, true, some, ◌++◌, arith, Option-cases,
}
use markaz.Prelude.Text.{Text, codes, text_eq_refl}
use markaz.Store.{Db, DocumentNumberSeries, ok, find}
use markaz.Accounting.Numbering.{is_series, format_number}
use markaz.Accounting.Numbering.Laws.{
  last_allocated, SeriesBelow, SeriesBelow-mono, after_next, next_lem, last_allocated-after_next,
  after_next-Below,
}
use markaz.Reference.{prefixed_series, insert_absent, ref_padding, allocate_document_number}

module _ (company_id : ℕ) (document_type prefix fiscal_year : Text) (db : Db) where
  abbrev pub full_prefix : Text
  full_prefix = prefix ++ (codes "-" ++ (fiscal_year ++ codes "-"))

  -- The tables once the series is there.
  abbrev pub ensured : Db
  ensured =
      insert_absent (prefixed_series db.next_id company_id document_type fiscal_year full_prefix)
        (record db { next_id = suc db.next_id })

  -- A row of the series that is there already has this prefix.
  abbrev pub HasPrefix : Type 0
  HasPrefix =
      (row : DocumentNumberSeries)
      → find (is_series company_id document_type fiscal_year) db.document_number_series ≡ some row
      → (row.prefix ≡ full_prefix) × (row.padding ≡ ref_padding)

  is_own :
      is_series company_id document_type fiscal_year
        (prefixed_series db.next_id company_id document_type fiscal_year full_prefix)
      ≡ true
  is_own = ground (arith, text_eq_refl document_type, text_eq_refl fiscal_year)

  ensured_row :
      HasPrefix
      → (row : DocumentNumberSeries) × (find
            (is_series company_id document_type fiscal_year)
            ensured.document_number_series
          ≡ some row)
        × (row.prefix ≡ full_prefix)
        × (row.padding ≡ ref_padding)
        × (row.last_number ≡ last_allocated company_id document_type fiscal_year db)
  ensured_row h =
      elim (Option-cases
        (find (is_series company_id document_type fiscal_year) db.document_number_series)) [
          | inl absent ↦ (
            prefixed_series db.next_id company_id document_type fiscal_year full_prefix,
            ground (arith, is_own),
            refl,
            refl,
            ground arith,
          )
          | inr (row, found) ↦ let (p, k) = h row found in (row, ground arith, p, k, ground arith)
        ]

  ensured-Below :
      SeriesBelow db.next_id db.document_number_series
      → SeriesBelow ensured.next_id ensured.document_number_series
  ensured-Below b =
      elim (Option-cases
        (find (is_series company_id document_type fiscal_year) db.document_number_series)) [
          | inl absent ↦ ground arith
          | inr (row, found) ↦
              ground (arith, SeriesBelow-mono db.next_id (suc db.next_id) db.document_number_series)
        ]

  -- A document number is always given out: it is the prefix, the year and the number after the last one
  -- of its series, padded to six digits; the series then stands at that number, and the ids stay
  -- distinct. This holds where a series that exists has the prefix that the caller names.
  pub allocate_document_number_lem :
      SeriesBelow db.next_id db.document_number_series
      → HasPrefix
      → (db' : Db) × (allocate_document_number company_id document_type prefix fiscal_year db
          ≡ ok (
              (
                format_number full_prefix ref_padding
                    (last_allocated company_id document_type fiscal_year db + 1),
                db',
              )))
        × (last_allocated company_id document_type fiscal_year db'
            ≡ last_allocated company_id document_type fiscal_year db + 1)
        × SeriesBelow db'.next_id db'.document_number_series
  unfolding allocate_document_number
  allocate_document_number_lem b h =
      let (row, found, p, k, n) = ensured_row h in
      let run = next_lem document_type company_id fiscal_year ensured in
      let same : last_allocated company_id document_type fiscal_year ensured
          ≡ last_allocated company_id document_type fiscal_year db =
        ground arith in
      (
        after_next document_type company_id fiscal_year ensured,
        ground arith,
        last_allocated-after_next document_type company_id fiscal_year ensured
            ∙ ap (λ k. k + 1) same,
        after_next-Below document_type company_id fiscal_year ensured (ensured-Below b),
      )
