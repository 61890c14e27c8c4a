-- ===== src/Domain/Measure.antt =====
-- packages/shared/src/domain.ts: what has changed between two measurements of a domain, and what of it is
-- worth an alert. `toLowerCase` and `new Date(text).getTime()`, in milliseconds, are parameters. Which
-- of two texts an alert has is kept, not the text.
use Prim.Native.Char.{Char, code}
use Prim.Native.String
use Prim.Native.String.{String, [], ◌∷◌}
use Prim.Native.Nat.{Ordering}
use mathlib.Core.List.{List, [], ◌∷◌, ◌++◌, map}
use scan_pal.Common.{
  ℕ, ◌+◌, ◌*◌, Option, none, some, Bool, true, false, not, str_eq, ◌==◌, ltb, if◌then◌else◌, select,
  exists,
}

pub data DomainEventField : Type 0 where
  domain_expiry domain_registrar dnssec_enabled caa_present tls_expiry nameservers caa_records :
      DomainEventField

pub record DomainMeasurement : Type 0 where
  pub domain_expiry : Option String
  pub domain_registrar : Option String
  pub dnssec_enabled : Option Bool
  pub caa_present : Option Bool
  pub tls_expiry : Option String
  pub nameservers : Option (List String)
  pub caa_records : Option (List String)

-- The values that a field may have.
pub data FieldValue : Type 0 where
  null : FieldValue
  text : String → FieldValue
  truth : Bool → FieldValue
  names : List String → FieldValue

abbrev pub of_text : Option String → FieldValue
of_text none = null
of_text (some s) = text s

abbrev pub of_truth : Option Bool → FieldValue
of_truth none = null
of_truth (some b) = truth b

abbrev pub of_names : Option (List String) → FieldValue
of_names none = null
of_names (some ns) = names ns

-- `prev[field]`.
abbrev pub value_of : DomainEventField → DomainMeasurement → FieldValue
value_of domain_expiry m = of_text m.domain_expiry
value_of domain_registrar m = of_text m.domain_registrar
value_of dnssec_enabled m = of_truth m.dnssec_enabled
value_of caa_present m = of_truth m.caa_present
value_of tls_expiry m = of_text m.tls_expiry
value_of nameservers m = of_names m.nameservers
value_of caa_records m = of_names m.caa_records

-- `sort()`, by code points.
unfoldable pub insert_name : String → List String → List String
insert_name s [] = s ∷ []
insert_name s (t ∷ ts) =
    let rest = insert_name s ts in
    elim (String.compare t s) [ Ordering.lt ↦ t ∷ rest | _ ↦ s ∷ t ∷ ts ]

unfoldable pub sort_names : List String → List String
unfolding insert_name
sort_names [] = []
sort_names (s ∷ ss) = insert_name s (sort_names ss)

-- `join(",")`.
unfoldable pub join : List String → String
join [] = ""
join (s ∷ []) = s
join (s ∷ (t ∷ ts)) = String.◌++◌ s (String.◌++◌ "," (join (t ∷ ts)))

abbrev cons_unless_dot : Char → String → String
cons_unless_dot c [] = if code c == 46 then [] else c ∷ []
cons_unless_dot c (d ∷ s) = c ∷ d ∷ s

-- `replace(/\.+$/, "")`.
unfoldable pub strip_dots : String → String
strip_dots [] = []
strip_dots (c ∷ s) = cons_unless_dot c (strip_dots s)

unfoldable pub as_comparable : FieldValue → String
unfolding sort_names join
as_comparable null = ""
as_comparable (text s) = s
as_comparable (truth true) = "true"
as_comparable (truth false) = "false"
as_comparable (names ns) = join (sort_names ns)

pub record DomainDiff : Type 0 where
  pub field : DomainEventField
  pub old_value : Option String
  pub new_value : Option String

-- `raw === null ? null : asComparable(raw)`.
abbrev pub shown : FieldValue → Option String
shown null = none
shown v = some (as_comparable v)

abbrev pub names_in : FieldValue → List String
names_in (names ns) = ns
names_in _ = []

abbrev pub holds_names : DomainEventField → Bool
holds_names nameservers = true
holds_names caa_records = true
holds_names _ = false

pub data AlertKind : Type 0 where
  expired expires_soon disabled changed added : AlertKind

pub record DomainAlert : Type 0 where
  pub field : DomainEventField
  pub kind : AlertKind

abbrev pub field_index : DomainEventField → ℕ
field_index domain_expiry = 0
field_index domain_registrar = 1
field_index dnssec_enabled = 2
field_index caa_present = 3
field_index tls_expiry = 4
field_index nameservers = 5
field_index caa_records = 6

abbrev pub is_for : DomainEventField → DomainDiff → Bool
is_for field d = field_index d.field == field_index field

-- `fields`.
abbrev pub all_fields : List DomainEventField
all_fields =
    domain_expiry ∷ domain_registrar ∷ dnssec_enabled ∷ caa_present ∷ tls_expiry ∷ nameservers
    ∷ caa_records ∷ []

abbrev pub ms_per_day : ℕ
ms_per_day = 86400000

module _ (to_lower_case : String → String) where
  unfoldable pub normalize_ns : List String → List String
  unfolding strip_dots sort_names
  normalize_ns ns =
      sort_names (select (λ n. not (str_eq n "")) (map (λ n. strip_dots (to_lower_case n)) ns))

  -- What is compared.
  unfoldable pub comparison_of : DomainEventField → FieldValue → String
  unfolding normalize_ns as_comparable
  comparison_of field v =
      if holds_names field
      then as_comparable (names (normalize_ns (names_in v)))
      else as_comparable v

  -- One turn of the loop, in front of what the other turns give.
  abbrev pub diff_field :
      DomainEventField → (prev next : DomainMeasurement) → List DomainDiff → List DomainDiff
  diff_field field prev next rest =
      if str_eq (comparison_of field (value_of field prev))
        (comparison_of field (value_of field next))
      then rest
      else record {
        field = field;
        old_value = shown (value_of field prev);
        new_value = shown (value_of field next);
      }
        ∷ rest

  unfoldable pub diff_fields :
      List DomainEventField → (prev next : DomainMeasurement) → List DomainDiff
  diff_fields [] prev next = []
  diff_fields (field ∷ fields) prev next = diff_field field prev next (diff_fields fields prev next)

  unfoldable pub diff_domain_measurement : (prev next : DomainMeasurement) → List DomainDiff
  unfolding diff_fields
  diff_domain_measurement prev next = diff_fields all_fields prev next

module _ (time_of : String → ℕ) where
  -- `daysUntil` is less than 0, or less than `days`.
  abbrev pub expiry_alert : DomainEventField → (days now : ℕ) → Option String → List DomainAlert
  expiry_alert field days now none = []
  expiry_alert field days now (some iso) =
      if str_eq iso ""
      then []
      else (if ltb (time_of iso) now
          then record { field = field; kind = expired } ∷ []
          else (if ltb (time_of iso) (now + days * ms_per_day)
              then record { field = field; kind = expires_soon } ∷ []
              else []))

  abbrev pub when_changed : DomainEventField → List DomainDiff → List DomainAlert → List DomainAlert
  when_changed field diffs alerts = if exists (is_for field) diffs then alerts else []

  abbrev pub when_truth :
      DomainEventField → AlertKind → (wanted : Bool) → Option Bool → List DomainAlert
  when_truth field kind wanted none = []
  when_truth field kind wanted (some b) =
      if (if wanted then b else not b) then record { field = field; kind = kind } ∷ [] else []

  unfoldable pub domain_alerts : List DomainDiff → DomainMeasurement → (now : ℕ) → List DomainAlert
  domain_alerts diffs next now =
      when_changed domain_expiry diffs (expiry_alert domain_expiry 30 now next.domain_expiry)
      ++ (when_changed tls_expiry diffs (expiry_alert tls_expiry 14 now next.tls_expiry)
          ++ (when_changed dnssec_enabled diffs
                (when_truth dnssec_enabled disabled false next.dnssec_enabled)
              ++ (when_changed nameservers diffs
                    (record { field = nameservers; kind = changed } ∷ [])
                  ++ when_changed caa_present diffs
                      (when_truth caa_present added true next.caa_present))))
