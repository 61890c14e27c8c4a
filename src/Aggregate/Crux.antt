-- ===== src/Aggregate/Crux.antt =====
-- packages/shared/src/crux.ts, and `buildCruxDivergenceFinding` of apps/worker/src/queues/aggregate.ts:
-- where the measurements of the lab and of the field differ too much. LCP and INP are whole
-- milliseconds here and CLS whole thousandths; fractions below these are left out.
use scan_pal.Common.{
  ℕ, suc, ◌-◌, Option, none, some, List, [], ◌∷◌, ◌++◌, String, false, ltb, leb, if◌then◌else◌, ℤ,
  pos, negsuc,
}
use scan_pal.Scan.Finding.{Finding, aeo, medium, open_}

pub record LabCwv : Type 0 where
  pub lcp_ms : Option ℕ
  pub cls : Option ℕ
  pub inp_ms : Option ℕ

-- The p75 values of `CruxData.metrics`.
pub record CruxData : Type 0 where
  pub lcp : Option ℕ
  pub inp : Option ℕ
  pub cls : Option ℕ

pub data Vital : Type 0 where
  lcp inp cls : Vital

pub record CruxDivergence : Type 0 where
  pub vital : Vital
  pub lab_value : ℕ
  pub field_value : ℕ
  pub threshold : ℕ
  pub delta : ℤ

-- `CRUX_DIVERGENCE_THRESHOLDS`.
abbrev pub threshold_of : Vital → ℕ
threshold_of lcp = 1000
threshold_of inp = 200
threshold_of cls = 100

abbrev pub subtract : ℕ → ℕ → ℤ
subtract a b = if leb b a then pos (a - b) else negsuc (b - a - 1)

abbrev pub abs : ℤ → ℕ
abs (pos n) = n
abs (negsuc n) = suc n

-- One of the three tests.
abbrev pub diverge : Vital → (lab field : Option ℕ) → List CruxDivergence
diverge v none field = []
diverge v (some a) none = []
diverge v (some a) (some b) =
    let delta = subtract a b in
    if ltb (threshold_of v) (abs delta)
    then record {
      vital = v;
      lab_value = a;
      field_value = b;
      threshold = threshold_of v;
      delta = delta;
    }
      ∷ []
    else []

unfoldable pub compute_crux_divergences : Option LabCwv → Option CruxData → List CruxDivergence
compute_crux_divergences none crux = []
compute_crux_divergences (some lab) none = []
compute_crux_divergences (some lab) (some field) =
    diverge lcp lab.lcp_ms field.lcp
    ++ (diverge inp lab.inp_ms field.inp ++ diverge cls lab.cls field.cls)

abbrev pub crux_check : String
crux_check = "crux-divergence"

-- The id is what `findingId` makes of the title.
unfoldable pub build_crux_divergence_finding : Finding
build_crux_divergence_finding = record {
  id = "crux-divergence:lab-en-field-metingen-wijken-af";
  check_id = crux_check;
  category = aeo;
  severity = medium;
  title = "Lab- en field-metingen wijken af";
  active = false;
  status = open_;
  note = none;
  route_url = none;
  regressed = false;
  snooze_until = none;
}
