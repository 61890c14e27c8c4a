-- ===== src/Domain/Tests.antt =====
-- A domain that is measured twice, and the theorems about the second measurement at it.
use scan_pal.Common.{
  ℕ, ◌+◌, ◌*◌, ◌<◌, ◌≡◌, refl, none, some, [], ◌∷◌, String, true, false, exists, str_eq,
  if◌then◌else◌,
}
use scan_pal.Domain.Measure.{
  DomainEventField, DomainMeasurement, comparison_of, normalize_ns, is_for, ms_per_day,
}
use scan_pal.Domain.Watch.{DomainSite, split, apply_domain_measurement}
use scan_pal.Domain.Changes.{is_alert_for}
use scan_pal.Domain.Repeat.{
  diffs_of, alerts_of, after, apply_domain_measurement-names_again,
  apply_domain_measurement-expiry_again, apply_domain_measurement-settles,
}

-- The column keeps the day.
abbrev read_date : String → String
read_date s = if str_eq s "2026-03-01T04:00:00Z" then "2026-03-01T00:00:00.000Z" else s

abbrev same : String → String
same s = s

abbrev time_of : String → ℕ
time_of s = 10 * ms_per_day

parts : split "a,b,,c" ≡ "a" ∷ "b" ∷ "" ∷ "c" ∷ []
unfolding split
parts = refl

normal : normalize_ns same ("b.x.." ∷ "" ∷ "a.x" ∷ []) ≡ "a.x" ∷ "b.x" ∷ []
unfolding normalize_ns
normal = refl

abbrev measured : DomainMeasurement
measured = record {
  domain_expiry = some "2026-03-01T04:00:00Z";
  domain_registrar = some "R";
  dnssec_enabled = some true;
  caa_present = some false;
  tls_expiry = none;
  nameservers = some [];
  caa_records = some [];
}

abbrev site : DomainSite
site = record {
  domain_expiry = none;
  domain_registrar = none;
  dnssec_enabled = none;
  caa_present = none;
  tls_expiry = none;
  domain_last_checked_at = none;
  next_domain_check_at = some 5;
  events =
      record {
        field = DomainEventField.nameservers;
        old_value = none;
        new_value = some "a.x,b.x";
        checked_at = 1;
      }
      ∷ [];
}

apply_domain_measurement-names_again_example :
    let again = after read_date same same time_of 6 6 measured site in
    (exists
        (is_for DomainEventField.nameservers)
        (diffs_of read_date same same time_of 7 7 measured again)
      ≡ true)
    × (exists
          (is_alert_for DomainEventField.nameservers)
          (alerts_of read_date same same time_of 7 7 measured again)
        ≡ true)
unfolding apply_domain_measurement comparison_of
apply_domain_measurement-names_again_example =
    apply_domain_measurement-names_again read_date same same time_of measured site 6 6 7 7 refl refl

apply_domain_measurement-expiry_again_example :
    let again = after read_date same same time_of 6 6 measured site in
    (exists
        (is_for DomainEventField.domain_expiry)
        (diffs_of read_date same same time_of 7 7 measured again)
      ≡ true)
    × (time_of "2026-03-01T04:00:00Z" < 7 + 30 * ms_per_day
        → exists
            (is_alert_for DomainEventField.domain_expiry)
            (alerts_of read_date same same time_of 7 7 measured again)
          ≡ true)
apply_domain_measurement-expiry_again_example =
    apply_domain_measurement-expiry_again read_date same same time_of measured site 6 6 7 7
      "2026-03-01T04:00:00Z" refl refl refl

apply_domain_measurement-settles_example :
    exists (is_for DomainEventField.domain_registrar) (
      diffs_of read_date same same time_of 7 7 measured
        (after read_date same same time_of 6 6 measured site))
    ≡ false
apply_domain_measurement-settles_example =
    apply_domain_measurement-settles read_date same same time_of DomainEventField.domain_registrar
      measured site 6 6 7 7 tt
