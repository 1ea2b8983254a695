-- ===== src/Tests/Licence.antt =====
-- A deployment that checked in two days before.
use markaz.Prelude.{ℕ, ◌+◌, ◌≤◌, ◌≡◌, ◌≢◌, ◌↔◌, true, some}
use markaz.Licensing.{
  LicenseStatusInput, licence_ok, locked, compute_license_status, default_grace_period_ms,
  compute_license_status_lem,
}

abbrev deployment : LicenseStatusInput
deployment = record {
  now = 172800000;
  configured = true;
  last_successful_checkin_at = some 0;
  grace_ms = default_grace_period_ms;
}

compute_license_status_lem_example :
    (compute_license_status deployment ≢ locked)
    × ((compute_license_status deployment ≡ licence_ok) ↔ (
        (true ≡ true)
        × ((last : ℕ) × (some 0 ≡ some last) × (172800000 ≤ last + default_grace_period_ms))))
compute_license_status_lem_example = compute_license_status_lem deployment
