-- ===== src/Uptime/State.antt =====
-- apps/worker/src/uptime/state.ts: the transition of a site's status after one probe.
use scan_pal.Common.{ℕ, ◌+◌, Bool, true, false, not, leb, if◌then◌else◌}

pub data SiteStatus : Type 0 where
  up down unknown : SiteStatus

abbrev pub is_up : SiteStatus → Bool
is_up up = true
is_up _ = false

abbrev pub is_down : SiteStatus → Bool
is_down down = true
is_down _ = false

abbrev pub is_unknown : SiteStatus → Bool
is_unknown unknown = true
is_unknown _ = false

pub record TransitionInput : Type 0 where
  pub previous_state : SiteStatus
  pub consecutive_failures : ℕ
  pub probe_ok : Bool

pub record TransitionResult : Type 0 where
  pub state : SiteStatus
  pub changed : Bool
  pub consecutive_failures : ℕ

-- The three returns after a failed probe.
abbrev transition_failed : SiteStatus → ℕ → TransitionResult
transition_failed previous failures =
    if is_unknown previous
    then record { state = down; changed = true; consecutive_failures = failures }
    else (if is_down previous
        then record { state = down; changed = false; consecutive_failures = failures }
        else record { state = down; changed = leb 2 failures; consecutive_failures = failures })

unfoldable pub transition_uptime_state : TransitionInput → TransitionResult
transition_uptime_state input =
    if input.probe_ok
    then record { state = up; changed = not (is_up input.previous_state); consecutive_failures = 0 }
    else transition_failed input.previous_state (input.consecutive_failures + 1)
