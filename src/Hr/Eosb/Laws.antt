-- ===== src/Hr/Eosb/Laws.antt =====
-- What the award promises.
use markaz.Prelude.{ℕ, ◌≡◌, ◌≢◌, refl, ap, inl, inr, arith, Bool-cases}
use markaz.Prelude.Int.{ℤ, pos, ◌+ℤ◌, ◌-ℤ◌, ◌≤ℤ◌, int_laws, ltb_ℤ, leb_ℤ}
use markaz.Decimals.{Decimal, Arithmetic, IsArithmetic, one, min_ℤ, max_ℤ}
use markaz.Hr.Gosi.{Date}
use markaz.Hr.Eosb.{
  EndOfServiceReason, resignation, termination, other_reason, whole, half, years_of_service_between,
  gross_of, resignation_fraction, entitlement_fraction, compute_end_of_service_settlement,
}

min_nonneg : (a b : ℤ) → pos 0 ≤ℤ a → pos 0 ≤ℤ b → pos 0 ≤ℤ min_ℤ a b
min_nonneg a b h k = ground arith

max_nonneg : (a : ℤ) → pos 0 ≤ℤ max_ℤ a (pos 0)
max_nonneg a = ground arith

whole_nonneg : (m : Arithmetic) (n : ℕ) → pos 0 ≤ℤ whole m n
whole_nonneg m n = omega arith

sum_nonneg : (n : ℕ) (q : ℤ) → pos 0 ≤ℤ q → pos 0 ≤ℤ pos n +ℤ q
sum_nonneg n q h = omega int_laws

module _ (m : Arithmetic) (laws : IsArithmetic m) where
  years_nonneg : (hired ended : Date) → pos 0 ≤ℤ years_of_service_between m hired ended
  unfolding years_of_service_between
  years_nonneg hired ended =
      sum_nonneg _ _ (laws.divided_by_nonneg _ _ (whole_nonneg m _) (whole_nonneg m _))

  gross_nonneg :
      (wage years : Decimal) → pos 0 ≤ℤ wage → pos 0 ≤ℤ years → pos 0 ≤ℤ gross_of m wage years
  gross_nonneg wage years w y =
      let first =
        laws.times_nonneg (m.times wage (half m)) (min_ℤ years (whole m 5))
          (laws.times_nonneg wage (half m) w (omega arith))
          (min_nonneg years (whole m 5) y (omega arith)) in
      let then_on =
        laws.times_nonneg wage (max_ℤ (years -ℤ whole m 5) (pos 0)) w
          (max_nonneg (years -ℤ whole m 5)) in
      omega (int_laws, first, then_on)

  fraction_nonneg : (years : Decimal) → pos 0 ≤ℤ resignation_fraction m years
  fraction_nonneg years = elim (Bool-cases (ltb_ℤ years (whole m 2))) [
    | inl short ↦ rw short (omega arith)
    | inr long ↦ elim (Bool-cases (leb_ℤ years (whole m 5))) [
      | inl mid ↦
          rw (long, mid)
            (laws.divided_by_nonneg (whole m 1) (whole m 3) (omega arith) (omega arith))
      | inr more ↦ elim (Bool-cases (ltb_ℤ years (whole m 10))) [
        | inl ten ↦
            rw (long, more, ten)
              (laws.divided_by_nonneg (whole m 2) (whole m 3) (omega arith) (omega arith))
        | inr full ↦ rw (long, more, full) (omega arith)
      ]
    ]
  ]

  all_nonneg :
      (reason : EndOfServiceReason) (years : Decimal) → pos 0 ≤ℤ entitlement_fraction m reason years
  all_nonneg resignation years = fraction_nonneg years
  all_nonneg termination years = omega arith
  all_nonneg other_reason years = omega arith

  -- For a wage that is not negative no part of the settlement is negative (the years, the gross award, the
  -- fraction, the net award), and an employee whose service is not ended by resignation has the fraction
  -- one and gets the whole award.
  pub compute_end_of_service_settlement_lem :
      (wage : Decimal) (hired ended : Date) (reason : EndOfServiceReason)
      → pos 0 ≤ℤ wage
      → let r = compute_end_of_service_settlement m wage hired ended reason in
        (pos 0 ≤ℤ r.years_of_service)
        × (pos 0 ≤ℤ r.gross_entitlement)
        × (pos 0 ≤ℤ r.entitlement_fraction)
        × (pos 0 ≤ℤ r.net_entitlement)
        × (reason ≢ resignation
            → (r.entitlement_fraction ≡ m.round4 (one m))
              × (r.net_entitlement ≡ r.gross_entitlement))
  unfolding compute_end_of_service_settlement
  compute_end_of_service_settlement_lem wage hired ended reason w =
      let y = years_of_service_between m hired ended in
      let years = years_nonneg hired ended in
      let gross = gross_nonneg wage y w years in
      (
        laws.fixed3_nonneg y years,
        laws.round4_nonneg (gross_of m wage y) gross,
        laws.round4_nonneg (entitlement_fraction m reason y) (all_nonneg reason y),
        laws.round4_nonneg (m.times (gross_of m wage y) (entitlement_fraction m reason y)) (
            laws.times_nonneg (gross_of m wage y) (entitlement_fraction m reason y) gross
              (all_nonneg reason y)),
        λ stays. (
          ap m.round4 (whole_fraction reason y stays),
          ap m.round4 (whole_award reason y (gross_of m wage y) stays),
        ),
      )
    where
      whole_fraction :
          (reason : EndOfServiceReason) (y : Decimal)
          → reason ≢ resignation
          → entitlement_fraction m reason y ≡ one m
      whole_fraction resignation y stays = absurd (stays refl)
      whole_fraction termination y stays = refl
      whole_fraction other_reason y stays = refl

      whole_award :
          (reason : EndOfServiceReason) (y g : Decimal)
          → reason ≢ resignation
          → m.times g (entitlement_fraction m reason y) ≡ g
      whole_award resignation y g stays = absurd (stays refl)
      whole_award termination y g stays = laws.times_one g
      whole_award other_reason y g stays = laws.times_one g
