-- ===== src/Domain/Repeat.antt =====
-- What a second measurement of an unchanged domain leads to: packages/scan-core/src/domain.ts.
use Prim.Native.String.{String}
use mathlib.Core.List.{List, [], ◌∷◌, ◌++◌, map, reverse, reverse-append, reverse-cons}
use mathlib.Core.Option
use scan_pal.Common.{
  ℕ, ◌+◌, ◌*◌, ◌<◌, ◌≡◌, refl, sym, ap, ◌∙◌, arith, Option, none, some, Bool, true, false, ◌||◌,
  not, str_eq, eq_iff, ltb, lt→ltb, find, exists, exists-append, Bool-cases, inl, inr,
}
use scan_pal.Domain.Measure.{
  DomainEventField, domain_expiry, domain_registrar, dnssec_enabled, caa_present, tls_expiry,
  nameservers, caa_records, DomainMeasurement, value_of, of_text, of_names, as_comparable,
  comparison_of, DomainDiff, DomainAlert, domain_alerts, expiry_alert, when_changed, when_truth,
  changed, added, disabled, is_for, ms_per_day,
}
use scan_pal.Domain.Watch.{
  DomainEvent, DomainSite, has_value, value_in, read_last_event_value, split_value, list_value,
  serialize_event_value, event_of, read_prev_status, apply_domain_measurement,
}
use scan_pal.Domain.Changes.{is_alert_for, exists-diff_domain_measurement}

find-append_none :
    (p : DomainEvent → Bool) (xs ys : List DomainEvent)
    → exists p xs ≡ false
    → find p (xs ++ ys) ≡ find p ys
find-append_none p [] ys h = refl
find-append_none p (x ∷ xs) ys h =
    let miss : p x ≡ false = ground (arith, h) in
    rw miss (find-append_none p xs ys (ground (arith, h)))

exists-reverse_none :
    (p : DomainEvent → Bool) (xs : List DomainEvent)
    → exists p xs ≡ false
    → exists p (reverse xs) ≡ false
exists-reverse_none p [] h = refl
exists-reverse_none p (x ∷ xs) h =
    let miss : p x ≡ false = ground (arith, h) in
    ap (exists p) (reverse-cons x xs)
    ∙ exists-append p (reverse xs) (x ∷ [])
    ∙ rw (exists-reverse_none p xs (ground (arith, h)), miss) refl

read_last_event_value-append :
    (field : DomainEventField) (site : DomainSite) (events : List DomainEvent)
    → exists (has_value field) events ≡ false
    → read_last_event_value field (record site { events = site.events ++ events })
      ≡ read_last_event_value field site
unfolding read_last_event_value
read_last_event_value-append field site events h =
    ap (λ es. value_in (find (has_value field) es)) (reverse-append site.events events)
    ∙ ap value_in (
        find-append_none (has_value field) (reverse events) (reverse site.events)
          (exists-reverse_none (has_value field) events h))

-- An event for a list that is empty has no value.
no_names-silent :
    (sql_now : ℕ) (m : DomainMeasurement) (diffs : List DomainDiff)
    → list_value m.nameservers ≡ none
    → exists (has_value nameservers) (map (event_of sql_now m) diffs) ≡ false
unfolding serialize_event_value
no_names-silent sql_now m [] h = refl
no_names-silent sql_now m (d ∷ diffs) h = rw (one d.field) (no_names-silent sql_now m diffs h)
  where
    one :
        (f : DomainEventField)
        → has_value nameservers (
            event_of sql_now m
              (record { field = f; old_value = d.old_value; new_value = d.new_value }))
          ≡ false
    one nameservers = rw h refl
    one domain_expiry = refl
    one domain_registrar = refl
    one dnssec_enabled = refl
    one caa_present = refl
    one tls_expiry = refl
    one caa_records = refl

module _ (p : DomainAlert → Bool) where
  exists-front : (xs ys : List DomainAlert) → exists p xs ≡ true → exists p (xs ++ ys) ≡ true
  exists-front xs ys h = exists-append p xs ys ∙ rw h refl

  exists-behind : (xs ys : List DomainAlert) → exists p ys ≡ true → exists p (xs ++ ys) ≡ true
  exists-behind xs ys h = exists-append p xs ys ∙ rw h (or_true (exists p xs))
    where
      or_true : (b : Bool) → (b || true) ≡ true
      or_true true = refl
      or_true false = refl

-- A field that has changed is alerted to, where its value calls for it.
alert-names :
    (time_of : String → ℕ) (diffs : List DomainDiff) (m : DomainMeasurement) (now : ℕ)
    → exists (is_for nameservers) diffs ≡ true
    → exists (is_alert_for nameservers) (domain_alerts time_of diffs m now) ≡ true
unfolding domain_alerts
alert-names time_of diffs m now h =
    let names =
      when_changed time_of nameservers diffs
        (record { field = nameservers; kind = changed } ∷ []) in
    let caa =
      when_changed time_of caa_present diffs
        (when_truth time_of caa_present added true m.caa_present) in
    let dnssec =
      when_changed time_of dnssec_enabled diffs
        (when_truth time_of dnssec_enabled disabled false m.dnssec_enabled) in
    let tls =
      when_changed time_of tls_expiry diffs (expiry_alert time_of tls_expiry 14 now m.tls_expiry) in
    let domain =
      when_changed time_of domain_expiry diffs
        (expiry_alert time_of domain_expiry 30 now m.domain_expiry) in
    let own : exists (is_alert_for nameservers) names ≡ true = rw h refl in
    exists-behind (is_alert_for nameservers) domain (tls ++ (dnssec ++ (names ++ caa))) (
      exists-behind (is_alert_for nameservers) tls (dnssec ++ (names ++ caa)) (
        exists-behind (is_alert_for nameservers) dnssec (names ++ caa)
          (exists-front (is_alert_for nameservers) names caa own)))

alert-expiry :
    (time_of : String → ℕ) (diffs : List DomainDiff) (m : DomainMeasurement) (now : ℕ) (e : String)
    → m.domain_expiry ≡ some e
    → str_eq e "" ≡ false
    → time_of e < now + 30 * ms_per_day
    → exists (is_for domain_expiry) diffs ≡ true
    → exists (is_alert_for domain_expiry) (domain_alerts time_of diffs m now) ≡ true
unfolding domain_alerts
alert-expiry time_of diffs m now e is text soon h =
    let own : exists (is_alert_for domain_expiry) (
          when_changed time_of domain_expiry diffs
            (expiry_alert time_of domain_expiry 30 now m.domain_expiry))
        ≡ true =
      rw (h, is, text)
        (elim (Bool-cases (ltb (time_of e) now)) [
          | inl past ↦ rw past refl
          | inr ahead ↦ rw (ahead, lt→ltb (time_of e) (now + 30 * ms_per_day) soon) refl
        ]) in
    exists-append (is_alert_for domain_expiry)
      (when_changed time_of domain_expiry diffs
        (expiry_alert time_of domain_expiry 30 now m.domain_expiry))
      _
    ∙ rw own refl

module _ (read_date read_time to_lower_case : String → String) (time_of : String → ℕ) where
  -- The diffs and the alerts of a measurement.
  abbrev pub diffs_of : (sql_now now : ℕ) → DomainMeasurement → DomainSite → List DomainDiff
  diffs_of sql_now now m site =
      (apply_domain_measurement read_date read_time to_lower_case time_of sql_now now m site).1.0

  abbrev pub alerts_of : (sql_now now : ℕ) → DomainMeasurement → DomainSite → List DomainAlert
  alerts_of sql_now now m site =
      (apply_domain_measurement read_date read_time to_lower_case time_of sql_now now m site).1.1

  abbrev pub after : (sql_now now : ℕ) → DomainMeasurement → DomainSite → DomainSite
  after sql_now now m site =
      (apply_domain_measurement read_date read_time to_lower_case time_of sql_now now m site).0

  -- When a measurement without nameservers was found to differ in them, the next measurement with
  -- the same values is found to differ in them again, and alerts to it.
  pub apply_domain_measurement-names_again :
      (m : DomainMeasurement) (site : DomainSite) (sql_now now sql_later later : ℕ)
      → list_value m.nameservers ≡ none
      → exists (is_for nameservers) (diffs_of sql_now now m site) ≡ true
      → let again = after sql_now now m site in
        (exists (is_for nameservers) (diffs_of sql_later later m again) ≡ true)
        × (exists (is_alert_for nameservers) (alerts_of sql_later later m again) ≡ true)
  unfolding apply_domain_measurement read_prev_status
  apply_domain_measurement-names_again m site sql_now now sql_later later no_names first =
      let diffs = diffs_of sql_now now m site in
      let again = after sql_now now m site in
      let silent =
        read_last_event_value-append nameservers site (map (event_of sql_now m) diffs)
          (no_names-silent sql_now m diffs no_names) in
      let second : exists (is_for nameservers) (diffs_of sql_later later m again) ≡ true =
        exists-diff_domain_measurement to_lower_case nameservers
          (read_prev_status read_date read_time again) m
        ∙ ap
            (λ (v : Option String). not (
              str_eq (comparison_of to_lower_case nameservers (of_names (split_value v)))
                (comparison_of to_lower_case nameservers (of_names m.nameservers))))
            silent
        ∙ sym (
            exists-diff_domain_measurement to_lower_case nameservers
              (read_prev_status read_date read_time site) m)
        ∙ first in
      (second, alert-names time_of (diffs_of sql_later later m again) m later second)

  -- When the column of the expiry does not give back the text that was measured, which is not
  -- empty, a second measurement with the same values finds it changed again, and alerts to it
  -- when it lies within thirty days.
  pub apply_domain_measurement-expiry_again :
      (m : DomainMeasurement) (site : DomainSite) (sql_now now sql_later later : ℕ) (e : String)
      → m.domain_expiry ≡ some e
      → str_eq e "" ≡ false
      → str_eq (read_date e) e ≡ false
      → let again = after sql_now now m site in
        (exists (is_for domain_expiry) (diffs_of sql_later later m again) ≡ true)
        × (time_of e < later + 30 * ms_per_day
            → exists (is_alert_for domain_expiry) (alerts_of sql_later later m again) ≡ true)
  unfolding apply_domain_measurement read_prev_status comparison_of as_comparable
  apply_domain_measurement-expiry_again m site sql_now now sql_later later e is text lost =
      let again = after sql_now now m site in
      let second : exists (is_for domain_expiry) (diffs_of sql_later later m again) ≡ true =
        exists-diff_domain_measurement to_lower_case domain_expiry
          (read_prev_status read_date read_time again) m
        ∙ rw is (rw lost refl) in
      (
        second,
        λ soon.
            alert-expiry time_of (diffs_of sql_later later m again) m later e is text soon second,
      )

  -- The column gives back what was measured.
  abbrev pub IsKept : DomainEventField → DomainMeasurement → Type 0
  IsKept domain_expiry m = Option.map read_date m.domain_expiry ≡ m.domain_expiry
  IsKept tls_expiry m = Option.map read_time m.tls_expiry ≡ m.tls_expiry
  IsKept domain_registrar m = Unit
  IsKept dnssec_enabled m = Unit
  IsKept caa_present m = Unit
  IsKept nameservers m = ⊥
  IsKept caa_records m = ⊥

  kept_value :
      (f : DomainEventField) (m : DomainMeasurement) (site : DomainSite) (sql_now now : ℕ)
      → IsKept f m
      → value_of f (read_prev_status read_date read_time (after sql_now now m site)) ≡ value_of f m
  unfolding apply_domain_measurement read_prev_status
  kept_value domain_expiry m site sql_now now k = ap of_text k
  kept_value tls_expiry m site sql_now now k = ap of_text k
  kept_value domain_registrar m site sql_now now k = refl
  kept_value dnssec_enabled m site sql_now now k = refl
  kept_value caa_present m site sql_now now k = refl
  kept_value nameservers m site sql_now now k = absurd k
  kept_value caa_records m site sql_now now k = absurd k

  -- A second measurement with the same values finds no change in the registrar, DNSSEC or the
  -- presence of CAA records, nor in the expiry of the domain or of the certificate when its
  -- column gives back what was measured; the lists of nameservers and of CAA records are not
  -- spoken of.
  pub apply_domain_measurement-settles :
      (f : DomainEventField) (m : DomainMeasurement) (site : DomainSite)
      (sql_now now sql_later later : ℕ)
      → IsKept f m
      → exists (is_for f) (diffs_of sql_later later m (after sql_now now m site)) ≡ false
  unfolding apply_domain_measurement
  apply_domain_measurement-settles f m site sql_now now sql_later later k =
      let prev = read_prev_status read_date read_time (after sql_now now m site) in
      let value = comparison_of to_lower_case f (value_of f m) in
      exists-diff_domain_measurement to_lower_case f prev m
      ∙ ap (λ v. not (str_eq (comparison_of to_lower_case f v) value))
          (kept_value f m site sql_now now k)
      ∙ ap not ((eq_iff value value).1 refl)
