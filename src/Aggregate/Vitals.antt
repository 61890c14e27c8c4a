-- ===== src/Aggregate/Vitals.antt =====
-- When the lab and the field diverge, and what the aggregator does with the derived check:
-- packages/shared/src/crux.ts, apps/worker/src/queues/aggregate.ts.
use scan_pal.Common.{
  ℕ, ◌+◌, ◌<◌, ◌≡◌, ◌↔◌, ◌⊎◌, inl, inr, refl, ap, sym, ◌∙◌, arith, Option, none, some, ◌++◌, Bool,
  true, false, ◌||◌, ltb, leb, exists, exists-append, Bool-cases,
}
use scan_pal.Aggregate.Crux.{
  LabCwv, CruxData, Vital, lcp, inp, cls, CruxDivergence, threshold_of, subtract, abs, diverge,
  compute_crux_divergences,
}

abbrev pub lab_of : Vital → LabCwv → Option ℕ
lab_of lcp lab = lab.lcp_ms
lab_of inp lab = lab.inp_ms
lab_of cls lab = lab.cls

abbrev pub field_of : Vital → CruxData → Option ℕ
field_of lcp field = field.lcp
field_of inp field = field.inp
field_of cls field = field.cls

abbrev pub same_vital : Vital → Vital → Bool
same_vital lcp lcp = true
same_vital inp inp = true
same_vital cls cls = true
same_vital _ _ = false

abbrev pub is_of : Vital → CruxDivergence → Bool
is_of v d = same_vital v d.vital

-- Both were measured, and they are further apart than the threshold.
abbrev pub IsFar : (threshold : ℕ) → (lab field : Option ℕ) → Type 0
IsFar threshold none field = ⊥
IsFar threshold (some a) none = ⊥
IsFar threshold (some a) (some b) = (threshold + b < a) ⊎ (threshold + a < b)

IsFar_iff : (t a b : ℕ) → (ltb t (abs (subtract a b)) ≡ true) ↔ ((t + b < a) ⊎ (t + a < b))
IsFar_iff t a b = elim (Bool-cases (leb b a)) [
  | inl le ↦ rw le ground arith
  | inr gt ↦ rw gt ground arith
]

same_vital_self : (v : Vital) → same_vital v v ≡ true
same_vital_self lcp = refl
same_vital_self inp = refl
same_vital_self cls = refl

exists-diverge_same :
    (v : Vital) (lab field : Option ℕ)
    → (exists (is_of v) (diverge v lab field) ≡ true) ↔ IsFar (threshold_of v) lab field
exists-diverge_same v none field = (λ h. cc, λ h. absurd h)
exists-diverge_same v (some a) none = (λ h. cc, λ h. absurd h)
exists-diverge_same v (some a) (some b) =
    let far = IsFar_iff (threshold_of v) a b in
    elim (Bool-cases (ltb (threshold_of v) (abs (subtract a b)))) [
      | inl far_apart ↦ (λ h. far.0 far_apart, λ h. rw (far_apart, same_vital_self v) refl)
      | inr close ↦
          (λ h. absurd (ground (arith, h, close)), λ h. absurd (ground (arith, close, far.1 h)))
    ]

exists-diverge_other :
    (v w : Vital) (lab field : Option ℕ)
    → same_vital v w ≡ false
    → exists (is_of v) (diverge w lab field) ≡ false
exists-diverge_other v w none field h = refl
exists-diverge_other v w (some a) none h = refl
exists-diverge_other v w (some a) (some b) h =
    elim (Bool-cases (ltb (threshold_of w) (abs (subtract a b)))) [
      | inl far_apart ↦ rw (far_apart, h) refl
      | inr close ↦ rw close refl
    ]

exists-diverge_own :
    (v : Vital) (lab : LabCwv) (field : CruxData)
    → exists (is_of v) (compute_crux_divergences (some lab) (some field))
      ≡ exists (is_of v) (diverge v (lab_of v lab) (field_of v field))
unfolding compute_crux_divergences
exists-diverge_own v lab field =
    let first = diverge lcp lab.lcp_ms field.lcp in
    let second = diverge inp lab.inp_ms field.inp in
    let third = diverge cls lab.cls field.cls in
    exists-append (is_of v) first (second ++ third)
    ∙ ap (λ b. exists (is_of v) first || b) (exists-append (is_of v) second third)
    ∙ own v
  where
    own :
        (w : Vital)
        → (exists (is_of w) (diverge lcp lab.lcp_ms field.lcp)
            || (exists (is_of w) (diverge inp lab.inp_ms field.inp)
                || exists (is_of w) (diverge cls lab.cls field.cls)))
          ≡ exists (is_of w) (diverge w (lab_of w lab) (field_of w field))
    own lcp = ground (
      arith,
      exists-diverge_other lcp inp lab.inp_ms field.inp refl,
      exists-diverge_other lcp cls lab.cls field.cls refl,
    )
    own inp = ground (
      arith,
      exists-diverge_other inp lcp lab.lcp_ms field.lcp refl,
      exists-diverge_other inp cls lab.cls field.cls refl,
    )
    own cls = ground (
      arith,
      exists-diverge_other cls lcp lab.lcp_ms field.lcp refl,
      exists-diverge_other cls inp lab.inp_ms field.inp refl,
    )

-- A vital is among the divergences exactly when the lab and the field have both measured it and the two
-- values are further apart than its threshold.
pub compute_crux_divergences-IsFar :
    (v : Vital) (lab : LabCwv) (field : CruxData)
    → (exists (is_of v) (compute_crux_divergences (some lab) (some field)) ≡ true)
      ↔ IsFar (threshold_of v) (lab_of v lab) (field_of v field)
compute_crux_divergences-IsFar v lab field =
    let own = exists-diverge_own v lab field in
    let (there, back) = exists-diverge_same v (lab_of v lab) (field_of v field) in
    (λ h. there (sym own ∙ h), λ far. own ∙ back far)
