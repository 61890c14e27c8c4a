-- ===== src/Domain/Watch.antt =====
-- packages/scan-core/src/domain.ts, `applyDomainMeasurement`, on one site: its columns, and its rows of
-- `domain_events` in the order in which they are inserted. `read_date` is what a text becomes in the
-- column `domain_expiry`, a `date`, and `toISOString`; `read_time` the same for the `timestamptz` of
-- `tls_expiry`.
use Prim.Native.Char.{code}
use Prim.Native.String.{String, [], ◌∷◌}
use mathlib.Core.List.{List, [], ◌∷◌, ◌++◌, map, reverse}
use mathlib.Core.Option
use scan_pal.Common.{
  ℕ, ◌+◌, Option, none, some, Bool, true, false, ◌&&◌, str_eq, ◌==◌, if◌then◌else◌, find,
}
use scan_pal.Domain.Measure.{
  DomainEventField, nameservers, caa_records, DomainMeasurement, sort_names, join, DomainDiff,
  diff_domain_measurement, DomainAlert, domain_alerts, field_index, ms_per_day,
}

pub record DomainEvent : Type 0 where
  pub field : DomainEventField
  pub old_value : Option String
  pub new_value : Option String
  pub checked_at : ℕ

pub record DomainSite : Type 0 where
  pub domain_expiry : Option String
  pub domain_registrar : Option String
  pub dnssec_enabled : Option Bool
  pub caa_present : Option Bool
  pub tls_expiry : Option String
  pub domain_last_checked_at : Option ℕ
  pub next_domain_check_at : Option ℕ
  pub events : List DomainEvent

-- `split(",")`: the part that is being read, and those behind it.
unfoldable pub split_from : String → String × List String
split_from [] = ([], [])
split_from (c ∷ s) =
    let (part, parts) = split_from s in
    if code c == 44 then ([], part ∷ parts) else (c ∷ part, parts)

unfoldable pub split : String → List String
unfolding split_from
split s = let (part, parts) = split_from s in part ∷ parts

abbrev pub has_value : DomainEventField → DomainEvent → Bool
has_value field e =
    field_index e.field == field_index field && (elim e.new_value [ none ↦ false | some _ ↦ true ])

abbrev pub value_in : Option DomainEvent → Option String
value_in none = none
value_in (some e) = e.new_value

-- `new_value is not null order by checked_at desc limit 1`.
unfoldable pub read_last_event_value : DomainEventField → DomainSite → Option String
read_last_event_value field site = value_in (find (has_value field) (reverse site.events))

-- `value ? value.split(",") : null`.
abbrev pub split_value : Option String → Option (List String)
split_value none = none
split_value (some s) = if str_eq s "" then none else some (split s)

abbrev pub list_value : Option (List String) → Option String
list_value none = none
list_value (some []) = none
list_value (some (n ∷ ns)) = some (join (sort_names (n ∷ ns)))

unfoldable pub serialize_event_value :
    DomainEventField → (fallback : Option String) → DomainMeasurement → Option String
unfolding sort_names join
serialize_event_value nameservers fallback m = list_value m.nameservers
serialize_event_value caa_records fallback m = list_value m.caa_records
serialize_event_value _ fallback m = fallback

abbrev pub event_of : (sql_now : ℕ) → DomainMeasurement → DomainDiff → DomainEvent
event_of sql_now m d = record {
  field = d.field;
  old_value = d.old_value;
  new_value = serialize_event_value d.field d.new_value m;
  checked_at = sql_now;
}

module _ (read_date read_time : String → String) where
  unfoldable pub read_prev_status : DomainSite → DomainMeasurement
  unfolding read_last_event_value split
  read_prev_status site = record {
    domain_expiry = Option.map read_date site.domain_expiry;
    domain_registrar = site.domain_registrar;
    dnssec_enabled = site.dnssec_enabled;
    caa_present = site.caa_present;
    tls_expiry = Option.map read_time site.tls_expiry;
    nameservers = split_value (read_last_event_value nameservers site);
    caa_records = split_value (read_last_event_value caa_records site);
  }

  module _ (to_lower_case : String → String) (time_of : String → ℕ) where
    unfoldable pub apply_domain_measurement :
        (sql_now now : ℕ)
        → DomainMeasurement
        → DomainSite
        → DomainSite × (List DomainDiff × List DomainAlert)
    unfolding read_prev_status diff_domain_measurement domain_alerts
    apply_domain_measurement sql_now now m site =
        let diffs = diff_domain_measurement to_lower_case (read_prev_status site) m in
        (
          record site {
            domain_expiry = m.domain_expiry;
            domain_registrar = m.domain_registrar;
            dnssec_enabled = m.dnssec_enabled;
            caa_present = m.caa_present;
            tls_expiry = m.tls_expiry;
            domain_last_checked_at = some sql_now;
            next_domain_check_at = some (sql_now + ms_per_day);
            events = site.events ++ map (event_of sql_now m) diffs;
          },
          (diffs, domain_alerts time_of diffs m now),
        )
