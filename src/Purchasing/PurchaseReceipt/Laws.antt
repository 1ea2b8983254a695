-- ===== src/Purchasing/PurchaseReceipt/Laws.antt =====
-- Never more is received than was ordered, and an order is received when all of it is.
use markaz.Prelude.{
  ℕ, ◌≡◌, refl, ◌∙◌, sym, ap, ap₂, inl, inr, true, ◌&&◌, List, [], ◌∷◌, map, arith, All, ◌==◌, ◌↔◌,
  Bool-cases, if◌then◌else◌,
}
use markaz.Prelude.Int.{pos, ◌+ℤ◌, ◌≤ℤ◌, leb_ℤ, int_laws}
use markaz.Decimals.{Decimal, Arithmetic, IsArithmetic, IsScaled, greater_than, column4_zero}
use markaz.Store.{Result-cases, ok}
use markaz.Purchasing.PurchaseOrder.{PurchaseOrderLine}
use markaz.Purchasing.PurchaseReceipt.{
  ReceiveAgainstOrderLine, requested_of, count_line, count_received, is_all_received,
}

-- A line after `requested` was received on it.
abbrev pub with_requested : ℕ → List ReceiveAgainstOrderLine → PurchaseOrderLine → PurchaseOrderLine
with_requested order_id requested l =
    if l.purchase_order_id == order_id
    then record l { received_quantity = l.received_quantity +ℤ requested_of l.id requested }
    else l

-- Never more than was ordered, and never less than nothing.
abbrev pub IsWithin : PurchaseOrderLine → Type 0
IsWithin l = (pos 0 ≤ℤ l.received_quantity) × (l.received_quantity ≤ℤ l.quantity)

requested_of_nonneg :
    (id : ℕ) (lines : List ReceiveAgainstOrderLine)
    → All (λ l. pos 1 ≤ℤ l.quantity) lines
    → pos 0 ≤ℤ requested_of id lines
requested_of_nonneg id [] h = omega arith
requested_of_nonneg id (line ∷ lines) (first, h) =
    let rest = requested_of_nonneg id lines h in
    elim (Bool-cases (line.purchase_order_line_id == id)) [
      | inl own ↦ rw own (omega int_laws)
      | inr other ↦ rw other rest
    ]

module _ (m : Arithmetic) (laws : IsArithmetic m) where
  requested_of-IsScaled :
      (id : ℕ) (lines : List ReceiveAgainstOrderLine)
      → All (λ l. IsScaled m l.quantity) lines
      → IsScaled m (requested_of id lines)
  requested_of-IsScaled id [] h = column4_zero m laws
  requested_of-IsScaled id (line ∷ lines) (first, h) =
      let rest = requested_of-IsScaled id lines h in
      elim (Bool-cases (line.purchase_order_line_id == id)) [
        | inl own ↦ rw own (laws.column4_sum line.quantity (requested_of id lines) first rest)
        | inr other ↦ rw other rest
      ]

  count_line_lem :
      (requested : List ReceiveAgainstOrderLine) (l l' : PurchaseOrderLine)
      → pos 0 ≤ℤ requested_of l.id requested
      → IsScaled m (requested_of l.id requested)
      → IsScaled m l.received_quantity
      → IsWithin l
      → count_line m requested l ≡ ok l'
      → (l' ≡ record l { received_quantity = l.received_quantity +ℤ requested_of l.id requested })
        × IsWithin l'
  count_line_lem requested l l' nonneg whole scaled within e =
      let added = requested_of l.id requested in
      let same : m.column4 (l.received_quantity +ℤ added) ≡ l.received_quantity +ℤ added =
        laws.column4_sum l.received_quantity added scaled whole in
      elim (Bool-cases (greater_than added (pos 0))) [
        | inl some_added ↦
            elim (Bool-cases (
              leb_ℤ (pos 0) (m.column4 (l.received_quantity +ℤ added))
              && leb_ℤ (m.column4 (l.received_quantity +ℤ added)) l.quantity)) [
                | inr refused ↦ absurd (ground arith)
                | inl accepted ↦
                    let counted : l'
                        ≡ record l { received_quantity = l.received_quantity +ℤ added } =
                      ground arith in
                    let low : pos 0 ≤ℤ l.received_quantity +ℤ added = ground arith in
                    let high : l.received_quantity +ℤ added ≤ℤ l.quantity = ground arith in
                    (counted, rw counted (low, high))
              ]
        | inr none_added ↦
            let nothing : added ≡ pos 0 = ground arith in
            let stays : l.received_quantity ≡ l.received_quantity +ℤ added = omega int_laws in
            let counted : l' ≡ l = ground arith in
            (
              counted ∙ ap (λ (q : Decimal). record l { received_quantity = q }) stays,
              rw counted within,
            )
      ]

  pub count_received_lem :
      (order_id : ℕ) (requested : List ReceiveAgainstOrderLine)
      (table table' : List PurchaseOrderLine)
      → All (λ l. pos 1 ≤ℤ l.quantity) requested
      → All (λ l. IsScaled m l.quantity) requested
      → All (λ l. IsScaled m l.received_quantity) table
      → All IsWithin table
      → count_received m order_id requested table ≡ ok table'
      → (table' ≡ map (with_requested order_id requested) table) × All IsWithin table'
  count_received_lem order_id requested [] table' positive whole scaled within e =
      let same : table' ≡ [] = ground arith in (same, rw same tt)
  count_received_lem order_id requested (l ∷ ls) table' positive whole (s, scaled) (w, within) e =
      elim (Bool-cases (l.purchase_order_id == order_id)) [
        | inl own ↦ elim (Result-cases (count_line m requested l)) [
          | inr (x, bad) ↦ absurd (ground arith)
          | inl (l', counted) ↦ elim (Result-cases (count_received m order_id requested ls)) [
            | inr (x, bad) ↦ absurd (ground arith)
            | inl (ls', others) ↦
                let (first, inside) =
                  count_line_lem requested l l' (requested_of_nonneg l.id requested positive)
                    (requested_of-IsScaled l.id requested whole) s w counted in
                let (rest, all_inside) =
                  count_received_lem order_id requested ls ls' positive whole scaled within
                    others in
                let same : table' ≡ l' ∷ ls' = ground arith in
                let here : with_requested order_id requested l ≡ l' = rw own (sym first) in
                (same ∙ ap₂ (λ x xs. x ∷ xs) (sym here) rest, rw same (inside, all_inside))
          ]
        ]
        | inr other ↦ elim (Result-cases (count_received m order_id requested ls)) [
          | inr (x, bad) ↦ absurd (ground arith)
          | inl (ls', others) ↦
              let (rest, all_inside) =
                count_received_lem order_id requested ls ls' positive whole scaled within others in
              let same : table' ≡ l ∷ ls' = ground arith in
              let here : with_requested order_id requested l ≡ l = rw other refl in
              (same ∙ ap₂ (λ x xs. x ∷ xs) (sym here) rest, rw same (w, all_inside))
        ]
      ]

-- All of the order is there.
abbrev pub IsFullyReceived : ℕ → List PurchaseOrderLine → Type 0
IsFullyReceived order_id table =
    All (λ l. (l.purchase_order_id == order_id) ≡ true → l.quantity ≤ℤ l.received_quantity) table

with_requested_order :
    (order_id : ℕ) (requested : List ReceiveAgainstOrderLine) (l : PurchaseOrderLine)
    → (with_requested order_id requested l).purchase_order_id ≡ l.purchase_order_id
with_requested_order order_id requested l = elim (Bool-cases (l.purchase_order_id == order_id)) [
  | inl own ↦ rw own refl
  | inr other ↦ rw other refl
]

pub is_all_received_iff :
    (order_id : ℕ) (requested : List ReceiveAgainstOrderLine) (table : List PurchaseOrderLine)
    → (is_all_received order_id requested table ≡ true)
      ↔ IsFullyReceived order_id (map (with_requested order_id requested) table)
is_all_received_iff order_id requested [] = (λ e. tt, λ h. refl)
is_all_received_iff order_id requested (l ∷ ls) =
    let (there, back) = is_all_received_iff order_id requested ls in
    elim (Bool-cases (l.purchase_order_id == order_id)) [
      | inr other ↦ rw (other, other) (λ e. (λ own. absurd (ground arith), there e), λ h. back h.1)
      | inl own ↦
          rw (own, own)
            (
              λ e. (λ _. ground arith, there (ground arith)),
              λ h. let le = h.0 refl in let rest = back h.1 in ground arith,
            )
    ]
