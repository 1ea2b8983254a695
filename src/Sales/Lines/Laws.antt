-- ===== src/Sales/Lines/Laws.antt =====
-- What a priced document shows.
use markaz.Prelude.{
  ℕ, ◌+◌, ◌≤◌, ◌≡◌, ◌≢◌, ◌⊎◌, refl, sym, ap, inl, inr, Bool, true, ◌&&◌, ◌==◌, Option, none, some,
  List, [], ◌∷◌, arith, Bool-cases, Option-cases, length,
}
use markaz.Prelude.Int.{pos, ◌+ℤ◌, int_laws}
use markaz.Prelude.Sums.{sum_by, sum_from-eq}
use markaz.Decimals.{Arithmetic}
use markaz.Prelude.Text.{Text, trim}
use markaz.Store.{Result-cases, ok, find}
use markaz.Purchasing.InvoiceMath.{hundred, tax_on, expense_line_math}
use markaz.Sales.Lines.{
  SalesLineInput, ResolvedSalesLine, Item, TaxCode, totals_of, find_tax_code, item_of, find_item,
  id_of, name_of, or_text, trimmed, description_of, checked_description, resolved, resolve_line,
  resolve_from, resolve_sales_lines,
}

-- The totals of a document are the sums of its lines: gross is net and tax over all lines.
pub totals_of_lem :
    (lines : List ResolvedSalesLine)
    → let t = totals_of lines in
      (t.net ≡ sum_by (λ l. l.net) lines)
      × (t.tax ≡ sum_by (λ l. l.tax) lines)
      × (t.gross ≡ sum_by (λ l. l.net +ℤ l.tax) lines)
unfolding totals_of
totals_of_lem lines =
    let net = sum_from-eq (λ (l : ResolvedSalesLine). l.net) (pos 0) lines in
    let tax = sum_from-eq (λ (l : ResolvedSalesLine). l.tax) (pos 0) lines in
    (omega int_laws, omega int_laws, omega (int_laws, split lines))
  where
    split :
        (ls : List ResolvedSalesLine)
        → sum_by (λ l. l.net +ℤ l.tax) ls ≡ sum_by (λ l. l.net) ls +ℤ sum_by (λ l. l.tax) ls
    split [] = omega int_laws
    split (l ∷ ls) = omega (int_laws, split ls)

find_test : {A : Type 0} (p : A → Bool) (xs : List A) (a : A) → find p xs ≡ some a → p a ≡ true
find_test p [] a e = absurd (ground arith)
find_test p (x ∷ xs) a e = elim (Bool-cases (p x)) [
  | inl hit ↦ let same : x ≡ a = ground arith in rw (sym same) hit
  | inr miss ↦ find_test p xs a (ground arith)
]

left_true : (a b : Bool) → a && b ≡ true → a ≡ true
left_true a b h = ground arith

==→eq : (a b : ℕ) → (a == b) ≡ true → a ≡ b
==→eq a b h = ground arith

or_else : (t name : Text) → ((t ≡ []) × (or_text t name ≡ name)) ⊎ ((t ≢ []) × (or_text t name ≡ t))
or_else [] name = inl (refl, refl)
or_else (c ∷ t) name = inr (λ e. absurd (ground arith), refl)

checked_inv :
    (given : Text) (n : ℕ) (description : Text)
    → checked_description given n ≡ ok description
    → (description ≢ []) × (description ≡ given)
checked_inv [] n description e = absurd (ground arith)
checked_inv (c ∷ t) n description e =
    let same : description ≡ c ∷ t = ground arith in rw same (λ h. absurd (ground arith), refl)

module _ (m : Arithmetic) (company_id : ℕ) (items : List Item) (tax_codes : List TaxCode) where
  -- The item is active, of the company, and named as the line's; a line of a service has none.
  abbrev pub HasItem : Option ℕ → Text → Type 0
  HasItem none name = name ≡ []
  HasItem (some id) name =
      (i : Item) × (find (λ x. (x.id == id) && ((x.company_id == company_id) && x.is_active)) items
        ≡ some i)
      × (i.name ≡ name)

  -- The line's own text without the spaces around it, or the item's name where there is none.
  abbrev pub IsDescribed : Option Text → Text → Text → Type 0
  IsDescribed none name description = description ≡ name
  IsDescribed (some t) name description =
      ((trim t ≡ []) × (description ≡ name)) ⊎ ((trim t ≢ []) × (description ≡ trim t))

  -- A resolved line is the line that was asked for, priced at the rate of its tax code.
  abbrev pub IsPriced : SalesLineInput → ResolvedSalesLine → ℕ → Type 0
  IsPriced line l n =
      (t : TaxCode) × (name : Text) × (find
          (λ x. (x.id == line.tax_code_id) && ((x.company_id == company_id) && x.is_active))
          tax_codes
        ≡ some t)
      × HasItem line.item_id name
      × (l.item_id ≡ line.item_id)
      × IsDescribed line.description name l.description
      × (l.description ≢ [])
      × (l.quantity ≡ line.quantity)
      × (l.unit_price ≡ line.unit_price)
      × (l.tax_code_id ≡ line.tax_code_id)
      × (l.tax_rate ≡ t.rate)
      × (l.net ≡ m.round4 (m.times line.quantity line.unit_price))
      × (l.tax ≡ m.round4 (m.divided_by (m.times l.net t.rate) (hundred m)))
      × (l.line_number ≡ n)

  -- The lines in order, numbered from `n` on.
  abbrev pub ArePriced : ℕ → List SalesLineInput → List ResolvedSalesLine → Type 0
  ArePriced n [] [] = Unit {0}
  ArePriced n [] (l ∷ ls) = ⊥
  ArePriced n (line ∷ lines) [] = ⊥
  ArePriced n (line ∷ lines) (l ∷ ls) = IsPriced line l n × ArePriced (n + 1) lines ls

  item_of_inv :
      (asked : Option ℕ) (n : ℕ) (item : Option Item)
      → item_of company_id items asked n ≡ ok item
      → HasItem asked (name_of item) × (id_of item ≡ asked)
  item_of_inv none n item e = let same : item ≡ none = ground arith in rw same (refl, refl)
  item_of_inv (some id) n item e = elim (Option-cases (find_item company_id id items)) [
    | inl absent ↦ absurd (ground arith)
    | inr (i, found) ↦
        let same : item ≡ some i = ground arith in
        let own = ==→eq i.id id (left_true _ _ (find_test _ items i found)) in
        rw same ((i, found, refl), ap some own)
  ]

  described :
      (given : Option Text) (name : Text) → IsDescribed given name (or_text (trimmed given) name)
  described none name = refl
  described (some t) name = or_else (trim t) name

  resolve_line_inv :
      (line : SalesLineInput) (n : ℕ) (l : ResolvedSalesLine)
      → resolve_line m company_id items tax_codes line n ≡ ok l
      → IsPriced line l n
  unfolding resolve_line expense_line_math tax_on
  resolve_line_inv line n l e = elim (Result-cases (item_of company_id items line.item_id n)) [
    | inr (x, failed) ↦ absurd (ground arith)
    | inl (item, there) ↦
        elim (Option-cases (find_tax_code company_id line.tax_code_id tax_codes)) [
          | inl absent ↦ absurd (ground arith)
          | inr (t, found) ↦
              elim (Result-cases (checked_description (description_of line item) n)) [
                | inr (x, failed) ↦ absurd (ground arith)
                | inl (description, given) ↦
                    let same : l ≡ resolved m company_id items tax_codes line n item t description =
                      ground arith in
                    let (filled, text) =
                      checked_inv (description_of line item) n description given in
                    let (listed, item_same) = item_of_inv line.item_id n item there in
                    let code =
                      ==→eq t.id line.tax_code_id (left_true _ _ (find_test _ tax_codes t found)) in
                    rw same (
                      t,
                      name_of item,
                      found,
                      listed,
                      item_same,
                      rw text (described line.description (name_of item)),
                      filled,
                      refl,
                      refl,
                      code,
                      refl,
                      refl,
                      refl,
                      refl,
                    )
              ]
        ]
  ]

  resolve_from_inv :
      (n : ℕ) (lines : List SalesLineInput) (ls : List ResolvedSalesLine)
      → resolve_from m company_id items tax_codes n lines ≡ ok ls
      → ArePriced n lines ls
  unfolding resolve_from
  resolve_from_inv n [] [] e = tt
  resolve_from_inv n [] (l ∷ ls) e = absurd (ground arith)
  resolve_from_inv n (line ∷ lines) ls e =
      elim (Result-cases (resolve_line m company_id items tax_codes line n)) [
        | inr (x, failed) ↦ absurd (ground arith)
        | inl (l, done) ↦
            elim (Result-cases (resolve_from m company_id items tax_codes (n + 1) lines)) [
              | inr (x, failed) ↦ absurd (ground arith)
              | inl (rest, more) ↦
                  let same : ls ≡ l ∷ rest = ground arith in
                  rw same (resolve_line_inv line n l done, resolve_from_inv (n + 1) lines rest more)
            ]
      ]

  -- A document whose lines are accepted has at least one line, and its lines are those asked for, in
  -- order and numbered from one: each with the item (active, of the company), the quantity, the price and
  -- the tax code of the line asked for, with its text or else the item's name, which is not empty, with
  -- its amount rounded once and the tax of that code, which is active and of the company.
  pub resolve_sales_lines_lem :
      (lines : List SalesLineInput) (ls : List ResolvedSalesLine)
      → resolve_sales_lines m company_id items tax_codes lines ≡ ok ls
      → (1 ≤ length lines) × ArePriced 1 lines ls
  unfolding resolve_sales_lines
  resolve_sales_lines_lem [] ls e = absurd (ground arith)
  resolve_sales_lines_lem (line ∷ lines) ls e =
      (omega arith, resolve_from_inv 1 (line ∷ lines) ls e)
