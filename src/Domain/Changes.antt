-- ===== src/Domain/Changes.antt =====
-- Which fields a comparison finds changed: packages/shared/src/domain.ts.
use Prim.Native.String.{String}
use mathlib.Core.List.{List, [], ◌∷◌}
use scan_pal.Common.{
  ℕ, ◌≡◌, refl, sym, ap, ◌∙◌, Bool, true, false, ◌&&◌, ◌||◌, not, str_eq, ◌==◌, ==_iff,
  if◌then◌else◌, exists, Bool-cases, inl, inr,
}
use scan_pal.Domain.Measure.{
  DomainEventField, domain_expiry, domain_registrar, dnssec_enabled, caa_present, tls_expiry,
  nameservers, caa_records, DomainMeasurement, value_of, comparison_of, DomainDiff, diff_field,
  diff_fields, diff_domain_measurement, DomainAlert, field_index, all_fields, is_for,
}

field_at : ℕ → DomainEventField
field_at n =
    if n == 0
    then domain_expiry
    else (if n == 1
        then domain_registrar
        else (if n == 2
            then dnssec_enabled
            else (if n == 3
                then caa_present
                else (if n == 4
                    then tls_expiry
                    else (if n == 5 then nameservers else caa_records)))))

field_at-field_index : (f : DomainEventField) → field_at (field_index f) ≡ f
unfolding field_at
field_at-field_index domain_expiry = refl
field_at-field_index domain_registrar = refl
field_at-field_index dnssec_enabled = refl
field_at-field_index caa_present = refl
field_at-field_index tls_expiry = refl
field_at-field_index nameservers = refl
field_at-field_index caa_records = refl

same_field : (g f : DomainEventField) → (field_index g == field_index f) ≡ true → g ≡ f
same_field g f h =
    sym (field_at-field_index g)
    ∙ ap field_at ((==_iff (field_index g) (field_index f)).0 h)
    ∙ field_at-field_index f

abbrev pub is_alert_for : DomainEventField → DomainAlert → Bool
is_alert_for field a = field_index a.field == field_index field

module _ (to_lower_case : String → String) where
  -- The comparison finds the field changed.
  abbrev pub differs : DomainEventField → (prev next : DomainMeasurement) → Bool
  differs f prev next = not (
      str_eq (comparison_of to_lower_case f (value_of f prev))
        (comparison_of to_lower_case f (value_of f next)))

  abbrev has_field : DomainEventField → List DomainEventField → Bool
  has_field f = exists (λ g. field_index g == field_index f)

  exists-diff_field :
      (f g : DomainEventField) (prev next : DomainMeasurement) (rest : List DomainDiff)
      → exists (is_for f) (diff_field to_lower_case g prev next rest)
        ≡ ((field_index g == field_index f) && differs g prev next || exists (is_for f) rest)
  exists-diff_field f g prev next rest =
      elim (Bool-cases (
        str_eq (comparison_of to_lower_case g (value_of g prev))
          (comparison_of to_lower_case g (value_of g next)))) [
            | inl equal ↦
                rw equal (drop_false (field_index g == field_index f) (exists (is_for f) rest))
            | inr unequal ↦
                rw unequal (drop_true (field_index g == field_index f) (exists (is_for f) rest))
          ]
    where
      drop_false : (i b : Bool) → b ≡ (i && false || b)
      drop_false true b = refl
      drop_false false b = refl

      drop_true : (i b : Bool) → (i || b) ≡ (i && true || b)
      drop_true true b = refl
      drop_true false b = refl

  exists-diff_fields :
      (f : DomainEventField) (fields : List DomainEventField) (prev next : DomainMeasurement)
      → exists (is_for f) (diff_fields to_lower_case fields prev next)
        ≡ (has_field f fields && differs f prev next)
  unfolding diff_fields
  exists-diff_fields f [] prev next = refl
  exists-diff_fields f (g ∷ fields) prev next =
      exists-diff_field f g prev next (diff_fields to_lower_case fields prev next)
      ∙ ap (λ b. (field_index g == field_index f) && differs g prev next || b)
          (exists-diff_fields f fields prev next)
      ∙ share (field_index g == field_index f) (differs g prev next) (has_field f fields)
          (differs f prev next) (λ own. ap (λ h. differs h prev next) (same_field g f own))
    where
      share : (i a h b : Bool) → (i ≡ true → a ≡ b) → (i && a || h && b) ≡ ((i || h) && b)
      share true a true b e = rw (e refl) (or_self b)
        where
          or_self : (c : Bool) → (c || c) ≡ c
          or_self true = refl
          or_self false = refl
      share true a false b e = rw (e refl) (or_false b)
        where
          or_false : (c : Bool) → (c || false) ≡ c
          or_false true = refl
          or_false false = refl
      share false a h b e = refl

  pub exists-diff_domain_measurement :
      (f : DomainEventField) (prev next : DomainMeasurement)
      → exists (is_for f) (diff_domain_measurement to_lower_case prev next) ≡ differs f prev next
  unfolding diff_domain_measurement
  exists-diff_domain_measurement f prev next = exists-diff_fields f all_fields prev next ∙ all f
    where
      all :
          (g : DomainEventField)
          → (has_field g all_fields && differs f prev next) ≡ differs f prev next
      all domain_expiry = refl
      all domain_registrar = refl
      all dnssec_enabled = refl
      all caa_present = refl
      all tls_expiry = refl
      all nameservers = refl
      all caa_records = refl
