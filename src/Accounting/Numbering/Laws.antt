-- ===== src/Accounting/Numbering/Laws.antt =====
-- What the numbering of documents promises: the next number of its series, and no other series moves.
use markaz.Prelude.{
  ℕ, suc, ◌+◌, ◌<◌, ◌≡◌, ◌≢◌, refl, inl, inr, Bool, true, false, Option, none, some, List, [], ◌∷◌,
  arith, ◌==◌, if◌then◌else◌, Bool-cases, Option-cases,
}
use markaz.Prelude.Text.{Text, text_eq_refl, text_eq→eq}
use markaz.Store.{Db, DocumentNumberSeries, ok, find}
use markaz.Accounting.Numbering.{is_series, fresh_series, set_last_number, format_number, next}

-- The last number that was given out in a series; 0 where none was.
abbrev pub last_allocated : ℕ → Text → Text → Db → ℕ
last_allocated company_id document_type fiscal_year db =
    elim (find (is_series company_id document_type fiscal_year) db.document_number_series) [
      | some s ↦ s.last_number
      | none ↦ 0
    ]

-- Ids fall along the table, newest first, and stay below `n`: they are distinct.
abbrev pub SeriesBelow : ℕ → List DocumentNumberSeries → Type 0
SeriesBelow n [] = Unit
SeriesBelow n (s ∷ ss) = (s.id < n) × SeriesBelow s.id ss

pub SeriesBelow-mono :
    (m n : ℕ) (ss : List DocumentNumberSeries) → m < suc n → SeriesBelow m ss → SeriesBelow n ss
SeriesBelow-mono m n [] h b = tt
SeriesBelow-mono m n (s ∷ ss) h b = (omega arith, b.1)

set_last_number-Below :
    (id k n : ℕ) (ss : List DocumentNumberSeries)
    → SeriesBelow n ss
    → SeriesBelow n (set_last_number id k ss)
set_last_number-Below id k n [] b = tt
set_last_number-Below id k n (s ∷ ss) b = ground (arith, set_last_number-Below id k s.id ss b.1)

abbrev renumber : ℕ → ℕ → DocumentNumberSeries → DocumentNumberSeries
renumber id n s = if s.id == id then record s { last_number = n } else s

abbrev renumber? : ℕ → ℕ → Option DocumentNumberSeries → Option DocumentNumberSeries
renumber? id n none = none
renumber? id n (some s) = some (renumber id n s)

find-set_last_number :
    (company_id : ℕ) (document_type fiscal_year : Text) (id n : ℕ) (ss : List DocumentNumberSeries)
    → find (is_series company_id document_type fiscal_year) (set_last_number id n ss)
      ≡ renumber? id n (find (is_series company_id document_type fiscal_year) ss)
find-set_last_number c d f id n [] = refl
find-set_last_number c d f id n (s ∷ ss) = ground (arith, find-set_last_number c d f id n ss)

find-below :
    (p : DocumentNumberSeries → Bool) (n : ℕ) (ss : List DocumentNumberSeries)
    (s : DocumentNumberSeries)
    → SeriesBelow n ss
    → find p ss ≡ some s
    → (s.id < n) × (p s ≡ true)
find-below p n [] s b e = cc
find-below p n (x ∷ ss) s b e = elim (Bool-cases (p x)) [
  | inl hit ↦ ground arith
  | inr miss ↦ ground (arith, find-below p x.id ss s b.1)
]

-- Two searches that find rows of one id find the same row.
find_unique :
    (p q : DocumentNumberSeries → Bool) (n : ℕ) (ss : List DocumentNumberSeries)
    (s t : DocumentNumberSeries)
    → SeriesBelow n ss
    → find p ss ≡ some s
    → find q ss ≡ some t
    → s.id ≡ t.id
    → s ≡ t
find_unique p q n [] s t b e f h = cc
find_unique p q n (x ∷ ss) s t b e f h =
    ground (
      arith,
      find-below p x.id ss s b.1,
      find-below q x.id ss t b.1,
      find_unique p q x.id ss s t b.1,
    )

is_series_key :
    (c c' : ℕ) (d d' f f' : Text) (s : DocumentNumberSeries)
    → is_series c d f s ≡ true
    → is_series c' d' f' s ≡ true
    → (c ≡ c') × (d ≡ d') × (f ≡ f')
is_series_key c c' d d' f f' s h k = ground (
  arith,
  text_eq→eq s.document_type d,
  text_eq→eq s.document_type d',
  text_eq→eq s.fiscal_year f,
  text_eq→eq s.fiscal_year f',
)

is_series-fresh : (c : ℕ) (d f : Text) (id : ℕ) → is_series c d f (fresh_series c d f id) ≡ true
is_series-fresh c d f id = ground (arith, text_eq_refl d, text_eq_refl f)

not_series-fresh :
    (c c' : ℕ) (d d' f f' : Text) (id : ℕ)
    → ¬ ((c ≡ c') × (d ≡ d') × (f ≡ f'))
    → is_series c' d' f' (fresh_series c d f id) ≡ false
not_series-fresh c c' d d' f f' id other =
    elim (Bool-cases (is_series c' d' f' (fresh_series c d f id))) [
      | inl same ↦ absurd (
          other
            (is_series_key c c' d d' f f' (fresh_series c d f id) (is_series-fresh c d f id) same))
      | inr differs ↦ differs
    ]

-- Rows of different series have different ids.
find_distinct :
    (c c' : ℕ) (d d' f f' : Text) (n : ℕ) (ss : List DocumentNumberSeries)
    (s t : DocumentNumberSeries)
    → SeriesBelow n ss
    → find (is_series c d f) ss ≡ some s
    → find (is_series c' d' f') ss ≡ some t
    → ¬ ((c ≡ c') × (d ≡ d') × (f ≡ f'))
    → s.id ≢ t.id
find_distinct c c' d d' f f' n ss s t b found there other same = other (
    is_series_key c c' d d' f f' s (find-below (is_series c d f) n ss s b found).1 (
      rw (find_unique (is_series c d f) (is_series c' d' f') n ss s t b found there same)
        (find-below (is_series c' d' f') n ss t b there).1))

module _ (document_type : Text) (company_id : ℕ) (fiscal_year : Text) (db : Db) where
  -- The row of the series as `next` finds or creates it, before it is renumbered.
  abbrev pub allocated_row : DocumentNumberSeries
  allocated_row =
      elim (find (is_series company_id document_type fiscal_year) db.document_number_series) [
        | some s ↦ s
        | none ↦ fresh_series company_id document_type fiscal_year db.next_id
      ]

  -- The tables after `next`.
  abbrev pub after_next : Db
  after_next =
      elim (find (is_series company_id document_type fiscal_year) db.document_number_series) [
        | some s ↦ record db {
          document_number_series =
              set_last_number s.id (s.last_number + 1) db.document_number_series;
        }
        | none ↦
            let s = fresh_series company_id document_type fiscal_year db.next_id in
            record db {
              document_number_series =
                  set_last_number s.id (s.last_number + 1) (s ∷ db.document_number_series);
              next_id = suc db.next_id;
            }
      ]

  -- `next` never fails: it gives out the number after the last one of the series, formatted with the
  -- prefix and the padding of its row.
  pub next_lem :
      next document_type company_id fiscal_year db
      ≡ ok (
          (
            format_number allocated_row.prefix allocated_row.padding
                (last_allocated company_id document_type fiscal_year db + 1),
            after_next,
          ))
  unfolding next
  next_lem = ground arith

  abbrev is_this : DocumentNumberSeries → Bool
  is_this = is_series company_id document_type fiscal_year

  pub last_allocated-after_next :
      last_allocated company_id document_type fiscal_year after_next
      ≡ last_allocated company_id document_type fiscal_year db + 1
  last_allocated-after_next = elim (Option-cases (find is_this db.document_number_series)) [
    | inl absent ↦ ground (
      arith,
      is_series-fresh company_id document_type fiscal_year db.next_id,
      text_eq_refl document_type,
      text_eq_refl fiscal_year,
    )
    | inr (s, found) ↦ ground (
      arith,
      find-set_last_number company_id document_type fiscal_year s.id (s.last_number + 1)
          db.document_number_series,
    )
  ]

  pub after_next-Below :
      SeriesBelow db.next_id db.document_number_series
      → SeriesBelow after_next.next_id after_next.document_number_series
  after_next-Below b = elim (Option-cases (find is_this db.document_number_series)) [
    | inl absent ↦
        ground (arith, set_last_number-Below db.next_id 1 db.next_id db.document_number_series b)
    | inr (s, found) ↦ ground (
      arith,
      set_last_number-Below s.id (s.last_number + 1) db.next_id db.document_number_series b,
    )
  ]

  pub last_allocated-after_next_other :
      (c : ℕ) (d f : Text)
      → ¬ ((company_id ≡ c) × (document_type ≡ d) × (fiscal_year ≡ f))
      → SeriesBelow db.next_id db.document_number_series
      → last_allocated c d f after_next ≡ last_allocated c d f db
  last_allocated-after_next_other c d f other b =
      elim (Option-cases (find is_this db.document_number_series)) [
        | inl absent ↦ elim (Option-cases (find (is_series c d f) db.document_number_series)) [
          | inl none_there ↦ ground (
            arith,
            not_series-fresh company_id c document_type d fiscal_year f db.next_id other,
            find-set_last_number c d f db.next_id 1 db.document_number_series,
          )
          | inr (t, there) ↦ ground (
            arith,
            not_series-fresh company_id c document_type d fiscal_year f db.next_id other,
            find-set_last_number c d f db.next_id 1 db.document_number_series,
            find-below (is_series c d f) db.next_id db.document_number_series t b there,
          )
        ]
        | inr (s, found) ↦ elim (Option-cases (find (is_series c d f) db.document_number_series)) [
          | inl none_there ↦
              ground (
                arith,
                find-set_last_number c d f s.id (s.last_number + 1) db.document_number_series,
              )
          | inr (t, there) ↦ ground (
            arith,
            find-set_last_number c d f s.id (s.last_number + 1) db.document_number_series,
            find_distinct company_id c document_type d fiscal_year f db.next_id
                db.document_number_series s t b found there other,
          )
        ]
      ]
