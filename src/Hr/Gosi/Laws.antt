-- ===== src/Hr/Gosi/Laws.antt =====
-- What the contributions are bounded by.
use markaz.Prelude.{
  ℕ, ◌+◌, ◌*◌, ◌≤◌, ◌<◌, ◌≡◌, refl, ◌⊎◌, inl, inr, true, false, none, some, arith, Bool-cases,
}
use markaz.Prelude.Int.{ℤ, pos, ◌+ℤ◌, ◌≤ℤ◌, int_laws}
use markaz.Decimals.{Decimal, Arithmetic, IsArithmetic, min_ℤ}
use markaz.Hr.Gosi.{
  Date, months_between, rate_at, pension_schedule, pension_rate_total_as_of,
  gosi_law_effective_date, GosiContribution, GosiParams, contribution_base_cap, base_of, hundredths,
  saudi_contribution, expatriate_contribution, pension_share_per_side, compute_gosi_contribution,
}

-- The rate never falls as the months go by, and lies between 18 and 22 hundredths.
rate_at_mono :
    (a b : ℕ)
    → a ≤ b
    → (rate_at pension_schedule a ≤ rate_at pension_schedule b)
      × (18 ≤ rate_at pension_schedule a)
      × (rate_at pension_schedule b ≤ 22)
rate_at_mono a b h = ground arith

-- A later date: no earlier by year, month and day.
abbrev pub IsLater : Date → Date → Type 0
IsLater a b =
    (a.year * 12 + a.month < b.year * 12 + b.month)
    ⊎ ((a.year * 12 + a.month ≡ b.year * 12 + b.month) × (a.day ≤ b.day))

months_between_mono :
    (from a b : Date) → IsLater a b → months_between from a ≤ months_between from b
unfolding months_between
months_between_mono from a b (inl h) = ground arith
months_between_mono from a b (inr h) = ground arith

-- The pensions rate starts at 18 per cent, never falls from one date to a later one, and ends at 22.
pub pension_rate_total_as_of_mono :
    (law a b : Date)
    → IsLater a b
    → (pension_rate_total_as_of a law ≤ pension_rate_total_as_of b law)
      × (18 ≤ pension_rate_total_as_of a law)
      × (pension_rate_total_as_of b law ≤ 22)
unfolding pension_rate_total_as_of
pension_rate_total_as_of_mono law a b h =
    rate_at_mono (months_between law a + 1) (months_between law b + 1)
      (omega (arith, months_between_mono law a b h))

module _ (m : Arithmetic) (laws : IsArithmetic m) where
  min_ℤ_nonneg : (a b : ℤ) → pos 0 ≤ℤ a → pos 0 ≤ℤ b → (pos 0 ≤ℤ min_ℤ a b) × (min_ℤ a b ≤ℤ b)
  min_ℤ_nonneg a b h k = ground arith

  abbrev IsBounded : GosiContribution → Type 0
  IsBounded g =
      (pos 0 ≤ℤ g.contribution_base)
      × (g.contribution_base ≤ℤ m.round4 (contribution_base_cap m))
      × (pos 0 ≤ℤ g.employee_share)
      × (g.employee_share ≤ℤ g.employer_share)

  module _ (base : Decimal) (low : pos 0 ≤ℤ base) (high : base ≤ℤ contribution_base_cap m) where
    saudi-IsBounded : (rate : ℕ) → IsBounded (saudi_contribution m base rate)
    saudi-IsBounded rate =
        let half = m.times base (pension_share_per_side m rate) in
        let one_percent = m.times base (hundredths m 1) in
        let two_percent = m.times base (hundredths m 2) in
        let h : pos 0 ≤ℤ half = laws.times_nonneg base (pension_share_per_side m rate) low (
          laws.divided_by_nonneg (hundredths m rate) (hundredths m 200) (omega arith)
            (omega arith)) in
        let o : pos 0 ≤ℤ one_percent = laws.times_nonneg base (hundredths m 1) low (omega arith) in
        let t : pos 0 ≤ℤ two_percent = laws.times_nonneg base (hundredths m 2) low (omega arith) in
        (
          laws.round4_nonneg base low,
          laws.round4_mono base (contribution_base_cap m) high,
          laws.round4_nonneg (half +ℤ one_percent) (omega int_laws),
          laws.round4_mono (half +ℤ one_percent) (half +ℤ two_percent +ℤ one_percent)
              (omega int_laws),
        )

    expatriate-IsBounded : IsBounded (expatriate_contribution m base)
    expatriate-IsBounded = (
      laws.round4_nonneg base low,
      laws.round4_mono base (contribution_base_cap m) high,
      omega arith,
      laws.round4_nonneg (m.times base (hundredths m 2))
          (laws.times_nonneg base (hundredths m 2) low (omega arith)),
    )

  -- For wages that are not negative the contribution base stays within the cap, no share is negative,
  -- the employee never pays more than the employer, and an expatriate employee pays nothing. Only an
  -- employee on the old law gets no figure.
  pub compute_gosi_contribution_bounds :
      (p : GosiParams)
      → pos 0 ≤ℤ p.basic_salary
      → pos 0 ≤ℤ p.housing_allowance
      → ((p.gosi_legacy_track ≡ true) × (compute_gosi_contribution m p ≡ none))
        ⊎ ((g : GosiContribution) × (p.gosi_legacy_track ≡ false)
            × (compute_gosi_contribution m p ≡ some g)
            × (pos 0 ≤ℤ g.contribution_base)
            × (g.contribution_base ≤ℤ m.round4 (contribution_base_cap m))
            × (pos 0 ≤ℤ g.employee_share)
            × (g.employee_share ≤ℤ g.employer_share)
            × (p.is_saudi ≡ false → g.employee_share ≡ pos 0))
  unfolding compute_gosi_contribution
  compute_gosi_contribution_bounds p basic housing =
      let raw = p.basic_salary +ℤ p.housing_allowance in
      let (low, high) = min_ℤ_nonneg raw (contribution_base_cap m) (omega int_laws) (omega arith) in
      elim (Bool-cases p.gosi_legacy_track) [
        | inl legacy ↦ inl (legacy, ground arith)
        | inr new ↦ elim (Bool-cases p.is_saudi) [
          | inl saudi ↦
              let rate = pension_rate_total_as_of p.as_of gosi_law_effective_date in
              let (a, b, c, d) = saudi-IsBounded (base_of m p) low high rate in
              inr (saudi_contribution m (base_of m p) rate, new, ground arith, a, b, c, d, λ e. cc)
          | inr expatriate ↦
              let (a, b, c, d) = expatriate-IsBounded (base_of m p) low high in
              inr
                (expatriate_contribution m (base_of m p), new, ground arith, a, b, c, d, λ e. refl)
        ]
      ]
