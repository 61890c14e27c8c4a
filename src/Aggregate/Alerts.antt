-- ===== src/Aggregate/Alerts.antt =====
-- The messages about a scan that has ended: apps/worker/src/queues/aggregate.ts.
use scan_pal.Common.{
  ℕ, ◌+◌, ◌<◌, ◌≤◌, ◌≡◌, ◌↔◌, ◌⊎◌, inl, inr, refl, sym, arith, Option, none, some, List, [], ◌++◌,
  Bool, true, false, ◌&&◌, not, ◌==◌, ltb, exists, count, All, Bool-cases,
}
use mathlib.Core.Path.{subst}
use mathlib.Core.Option.{none-ne-some, some-injective}
use scan_pal.Scan.Finding.{medium, SeverityCounts}
use scan_pal.Scan.Diff.{ScanDiff, count_at_or_above}
use scan_pal.Lifecycle.Store.{ScanRow}
use scan_pal.Notify.Hub.{NotificationType, type_index, scan_done, critical_finding, scan_diff}
use scan_pal.Aggregate.Process.{
  Message, ScoreDrop, has_new_or_regressed, alert_on, criticals_of,
  emit_scan_finished_notifications, score_drop_of, is_some, is_manual, alert_for,
}

abbrev pub has_type : NotificationType → Message → Bool
has_type type m = type_index m.type == type_index type

-- The findings that a reader is alerted to.
abbrev pub alarming : SeverityCounts → ℕ
alarming c = c.critical + c.high + c.medium

abbrev pub IsDrop : (previous score : Option ℕ) → Type 0
IsDrop (some p) (some s) = s + 5 ≤ p
IsDrop _ _ = ⊥

abbrev pub IsWorse : Option ℕ → ScanRow → Type 0
IsWorse previous row =
    (d : ScanDiff) × (row.diff ≡ some d)
    × ((0 < alarming d.alert_new + alarming d.alert_regressed) ⊎ IsDrop previous row.score)

IsDrop-iff :
    (previous score : Option ℕ)
    → (is_some (score_drop_of previous score) ≡ true) ↔ IsDrop previous score
unfolding score_drop_of
IsDrop-iff none score = (λ h. cc, λ h. absurd h)
IsDrop-iff (some p) none = (λ h. cc, λ h. absurd h)
IsDrop-iff (some p) (some s) = ground arith

alarming_iff : (c : SeverityCounts) → count_at_or_above c medium ≡ alarming c
unfolding count_at_or_above
alarming_iff c = omega arith

has_new_or_regressed_iff :
    (d : ScanDiff)
    → (has_new_or_regressed d ≡ true) ↔ (0 < alarming d.alert_new + alarming d.alert_regressed)
has_new_or_regressed_iff d =
    ground (arith, alarming_iff d.alert_new, alarming_iff d.alert_regressed)

alert_on_iff :
    (team scan : ℕ) (drop : Option ScoreDrop) (d : ScanDiff)
    → (exists (has_type scan_diff) (alert_on team scan drop d) ≡ true)
      ↔ ((has_new_or_regressed d ≡ true) ⊎ (is_some drop ≡ true))
alert_on_iff team scan drop d = elim (Bool-cases (has_new_or_regressed d)) [
  | inl worse ↦ rw worse (λ h. inl refl, λ w. refl)
  | inr same ↦ rw same (elim (Bool-cases (is_some drop)) [
    | inl fell ↦ rw fell (λ h. inr refl, λ w. refl)
    | inr kept ↦ rw kept (λ h. inr h, λ w. elim w [ inl a ↦ a | inr b ↦ b ])
  ])
]

alert_for_iff :
    (team scan : ℕ) (previous : Option ℕ) (row : ScanRow)
    → is_manual row.trigger ≡ false
    → (exists (has_type scan_diff) (alert_for team scan previous row) ≡ true) ↔ IsWorse previous row
unfolding alert_for
alert_for_iff team scan previous row auto = rw auto (go row.diff)
  where
    go :
        (o : Option ScanDiff)
        → (exists (has_type scan_diff) (elim o [
          | none ↦ []
          | some d ↦ alert_on team scan (score_drop_of previous row.score) d
        ])
            ≡ true)
          ↔ ((d : ScanDiff) × (o ≡ some d)
              × ((0 < alarming d.alert_new + alarming d.alert_regressed)
                  ⊎ IsDrop previous row.score))
    go none = (λ h. cc, λ (d, e, w). absurd (none-ne-some d e))
    go (some d) =
        let drop = score_drop_of previous row.score in
        let (sent, send) = alert_on_iff team scan drop d in
        let (worse, worsen) = has_new_or_regressed_iff d in
        let (fell, fall) = IsDrop-iff previous row.score in
        (
          λ h. (d, refl, elim (sent h) [ inl a ↦ inl (worse a) | inr b ↦ inr (fell b) ]),
          λ (d', e, w).
              let same : d' ≡ d = sym (some-injective d d' e) in
              send (elim w [
                | inl a ↦ inl (
                    worsen (
                      subst
                        (λ (q : ScanDiff). 0 < alarming q.alert_new + alarming q.alert_regressed)
                        same a))
                | inr b ↦ inr (fall b)
              ]),
        )

-- The messages about a scan whose row has been stored.
pub record IsReport (team scan : ℕ) (previous : Option ℕ) (row : ScanRow) (messages : List Message)
    : Type 0 where
  pub done : count (has_type scan_done) messages ≡ 1
  pub critical :
      (exists (has_type critical_finding) messages ≡ true) ↔ (0 < criticals_of row.findings)
  pub by_hand : is_manual row.trigger ≡ true → exists (has_type scan_diff) messages ≡ false
  pub changed :
      is_manual row.trigger ≡ false
      → (exists (has_type scan_diff) messages ≡ true) ↔ IsWorse previous row
  pub addressed : All (λ (m : Message). (m.team_id ≡ team) × (m.entity_id ≡ scan)) messages

-- An alert is one message, or none.
IsAlert : (team scan : ℕ) → List Message → Type 0
IsAlert team scan messages =
    (count (has_type scan_done) messages ≡ 0)
    × (exists (has_type critical_finding) messages ≡ false)
    × All (λ (m : Message). (m.team_id ≡ team) × (m.entity_id ≡ scan)) messages

alert_for-IsAlert :
    (team scan : ℕ) (previous : Option ℕ) (row : ScanRow)
    → IsAlert team scan (alert_for team scan previous row)
unfolding alert_for IsAlert
alert_for-IsAlert team scan previous row = elim (Bool-cases (is_manual row.trigger)) [
  | inl by_hand ↦ rw by_hand (refl, refl, tt)
  | inr auto ↦ rw auto (on row.diff)
]
  where
    one : (drop : Option ScoreDrop) (d : ScanDiff) → IsAlert team scan (alert_on team scan drop d)
    one drop d = elim (Bool-cases (not (has_new_or_regressed d) && not (is_some drop))) [
      | inl quiet ↦ rw quiet (refl, refl, tt)
      | inr loud ↦ rw loud (refl, refl, ((refl, refl), tt))
    ]

    on :
        (o : Option ScanDiff)
        → IsAlert team scan (elim o [
          | none ↦ []
          | some d ↦ alert_on team scan (score_drop_of previous row.score) d
        ])
    on none = (refl, refl, tt)
    on (some d) = one (score_drop_of previous row.score) d

alert_for-by_hand :
    (team scan : ℕ) (previous : Option ℕ) (row : ScanRow)
    → is_manual row.trigger ≡ true
    → exists (has_type scan_diff) (alert_for team scan previous row) ≡ false
unfolding alert_for
alert_for-by_hand team scan previous row by_hand = rw by_hand refl

pub messages-IsReport :
    (team scan : ℕ) (previous : Option ℕ) (row : ScanRow)
    → IsReport team scan previous row
        (emit_scan_finished_notifications team scan row ++ alert_for team scan previous row)
unfolding emit_scan_finished_notifications IsAlert
messages-IsReport team scan previous row =
    let (none_done, none_critical, all) = alert_for-IsAlert team scan previous row in
    elim (Bool-cases (ltb 0 (criticals_of row.findings))) [
      | inl some_critical ↦
          let positive : 0 < criticals_of row.findings = ground (arith, some_critical) in
          rw some_critical (record {
            done = rw none_done refl;
            critical = (λ h. positive, λ h. refl);
            by_hand = alert_for-by_hand team scan previous row;
            changed = alert_for_iff team scan previous row;
            addressed = ((refl, refl), ((refl, refl), all));
          })
      | inr no_critical ↦ rw no_critical (record {
        done = rw none_done refl;
        critical = (
          λ h. absurd (ground (arith, h, none_critical)),
          λ h. absurd (ground (arith, h, no_critical)),
        );
        by_hand = alert_for-by_hand team scan previous row;
        changed = alert_for_iff team scan previous row;
        addressed = ((refl, refl), all);
      })
    ]
