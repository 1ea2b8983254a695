-- ===== src/Licensing.antt =====
-- packages/core/src/licensing/grace-period.ts: the status of the licence of a deployment. Times are
-- milliseconds.
use markaz.Prelude.{
  ℕ, ◌+◌, ◌*◌, ◌≤◌, ◌≡◌, ◌≢◌, ◌↔◌, Bool, true, Option, none, some, arith, inl, inr, Option-cases,
  Bool-cases, if◌then◌else◌,
}
use markaz.Prelude.Int.{pos, ◌-ℤ◌, leb_ℤ}

pub data LicenseStatus : Type 0 where
  licence_ok grace locked unconfigured : LicenseStatus

pub record LicenseStatusInput : Type 0 where
  pub now : ℕ
  pub configured : Bool
  pub last_successful_checkin_at : Option ℕ
  pub grace_ms : ℕ

unfoldable pub compute_license_status : LicenseStatusInput → LicenseStatus
compute_license_status input =
    if input.configured
    then elim input.last_successful_checkin_at [
      | none ↦ grace
      | some at_time ↦
          if leb_ℤ (pos input.now -ℤ pos at_time) (pos input.grace_ms) then licence_ok else grace
    ]
    else unconfigured

abbrev pub default_checkin_interval_ms : ℕ
default_checkin_interval_ms = 7 * 24 * 60 * 60 * 1000

abbrev pub default_grace_period_ms : ℕ
default_grace_period_ms = 30 * 24 * 60 * 60 * 1000

elapsed_le : (now last ms : ℕ) → leb_ℤ (pos now -ℤ pos last) (pos ms) ≡ true → now ≤ last + ms
unfolding ◌-ℤ◌
elapsed_le now last ms h = ground arith

elapsed_ge : (now last ms : ℕ) → now ≤ last + ms → leb_ℤ (pos now -ℤ pos last) (pos ms) ≡ true
unfolding ◌-ℤ◌
elapsed_ge now last ms h = ground arith

-- Silence never locks a deployment: whatever the clock shows, the status is not locked; it is fine
-- exactly when the deployment is configured and its last check-in is within the grace period.
pub compute_license_status_lem :
    (input : LicenseStatusInput)
    → (compute_license_status input ≢ locked)
      × ((compute_license_status input ≡ licence_ok) ↔ (
          (input.configured ≡ true)
          × ((last : ℕ) × (input.last_successful_checkin_at ≡ some last)
              × (input.now ≤ last + input.grace_ms))))
unfolding compute_license_status
compute_license_status_lem input = elim (Bool-cases input.configured) [
  | inr no_licence ↦
      (λ e. absurd (ground arith), ((λ e. absurd (ground arith)), λ e. absurd (ground arith)))
  | inl set_up ↦ elim (Option-cases input.last_successful_checkin_at) [
    | inl never ↦ (
      λ e. absurd (ground arith),
      ((λ e. absurd (ground arith)), λ (yes_set, (last, found, le)). absurd (ground arith)),
    )
    | inr (last, found) ↦
        elim (Bool-cases (leb_ℤ (pos input.now -ℤ pos last) (pos input.grace_ms))) [
          | inl within ↦ (
            λ e. absurd (ground arith),
            (
              (λ e. (set_up, (last, found, elapsed_le input.now last input.grace_ms within))),
              λ e. ground arith,
            ),
          )
          | inr late ↦ (
            λ e. absurd (ground arith),
            (
              (λ e. absurd (ground arith)),
              λ (yes_set, (other, there, le)).
                  absurd (ground (arith, elapsed_ge input.now other input.grace_ms)),
            ),
          )
        ]
  ]
]
