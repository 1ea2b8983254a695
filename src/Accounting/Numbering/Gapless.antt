-- ===== src/Accounting/Numbering/Gapless.antt =====
-- What callers of the numbering service rely on.
use markaz.Prelude.{ℕ, ◌+◌, ◌≤◌, ◌≡◌, sym, ap, ◌∙◌, List, [], ◌∷◌, ◌++◌, arith}
use markaz.Prelude.Text.{Text, value, show, pad_start, value-show, value-pad_start}
use markaz.Store.{Db, DocumentNumberSeries, ok}
use markaz.Accounting.Numbering.{format_number, next}
use markaz.Accounting.Numbering.Laws.{
  last_allocated, SeriesBelow, allocated_row, after_next, next_lem, last_allocated-after_next,
  last_allocated-after_next_other, after_next-Below,
}

-- Where the ids of the series are distinct, an allocation succeeds; it counts its own series up by one,
-- leaves the last number of every other series, and keeps the ids distinct.
pub next_gapless :
    (document_type : Text) (company_id : ℕ) (fiscal_year : Text) (db : Db)
    → SeriesBelow db.next_id db.document_number_series
    → (number : Text) × (db' : Db) × (next document_type company_id fiscal_year db
        ≡ ok (number, db'))
      × (last_allocated company_id document_type fiscal_year db'
          ≡ last_allocated company_id document_type fiscal_year db + 1)
      × ((c : ℕ) (d f : Text)
          → ¬ ((company_id ≡ c) × (document_type ≡ d) × (fiscal_year ≡ f))
          → last_allocated c d f db' ≡ last_allocated c d f db)
      × SeriesBelow db'.next_id db'.document_number_series
next_gapless t c f db b = (
  _,
  after_next t c f db,
  next_lem t c f db,
  last_allocated-after_next t c f db,
  λ c' d' f' other. last_allocated-after_next_other t c f db c' d' f' other b,
  after_next-Below t c f db b,
)

append_cancel : (p s t : Text) → p ++ s ≡ p ++ t → s ≡ t
append_cancel [] s t h = h
append_cancel (a ∷ p) s t h = append_cancel p s t (cc)

-- Two numbers of one format are one number: nothing is lost in padding and printing.
pub format_number_injective :
    (prefix : Text) (padding m n : ℕ)
    → format_number prefix padding m ≡ format_number prefix padding n
    → m ≡ n
format_number_injective prefix padding m n h =
    sym (read m)
    ∙ ap value (append_cancel prefix (pad_start padding (show m)) (pad_start padding (show n)) h)
    ∙ read n
  where
    read : (k : ℕ) → value (pad_start padding (show k)) ≡ k
    read k = value-pad_start padding (show k) ∙ value-show k

-- The parts of the result of an allocation, for callers that need not see how it is made.
module _ (document_type : Text) (company_id : ℕ) (fiscal_year : Text) (db : Db) where
  pub number_of : Text
  number_of =
      let row = allocated_row document_type company_id fiscal_year db in
      format_number row.prefix row.padding
        (last_allocated company_id document_type fiscal_year db + 1)

  pub series_after : List DocumentNumberSeries
  series_after = (after_next document_type company_id fiscal_year db).document_number_series

  pub counter_after : ℕ
  counter_after = (after_next document_type company_id fiscal_year db).next_id

  pub next-eq :
      next document_type company_id fiscal_year db
      ≡ ok (
          (number_of, record db { document_number_series = series_after; next_id = counter_after }))
  unfolding number_of series_after counter_after
  next-eq = ground (arith, next_lem document_type company_id fiscal_year db)

  pub next_id-le-counter_after : db.next_id ≤ counter_after
  unfolding counter_after
  next_id-le-counter_after = ground arith

  pub series_after-Below :
      SeriesBelow db.next_id db.document_number_series → SeriesBelow counter_after series_after
  unfolding series_after counter_after
  series_after-Below = after_next-Below document_type company_id fiscal_year db
