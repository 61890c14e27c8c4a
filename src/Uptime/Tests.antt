-- ===== src/Uptime/Tests.antt =====
-- Runs of the uptime monitor, and the theorems about it at concrete inputs.
use scan_pal.Common.{◌≡◌, refl, Option, none, some, List, [], ◌∷◌, true, false, arith, String, put}
use scan_pal.Uptime.State.{up, down, unknown}
use scan_pal.Uptime.Poll.{ProbeResult, UptimeSiteRow, Store}
use scan_pal.Uptime.History.{Probe, poll_rounds, state_of, poll_rounds-classify}
use scan_pal.Uptime.Round.{Round}

abbrev good : ProbeResult
good = record { ok = true; status = up; latency_ms = some 80; status_code = some 200; error = none }

abbrev bad : ProbeResult
bad = record {
  ok = false;
  status = down;
  latency_ms = none;
  status_code = none;
  error = some "timeout";
}

abbrev site : UptimeSiteRow
site = record {
  id = 3;
  team_id = 7;
  url = "https://example.com";
  uptime_state = unknown;
  uptime_state_changed_at = none;
}

abbrev store : Store
store = record { sites = put 3 (some site) (λ t. none); events = [] }

abbrev probes : List Probe
probes =
    record { sql_now = 10; now = 10; result = good }
    ∷ record { sql_now = 20; now = 20; result = bad }
    ∷ record { sql_now = 30; now = 30; result = bad }
    ∷ []

poll_rounds-classify_example : state_of 3 (poll_rounds 3 probes store) ≡ some down
poll_rounds-classify_example =
    poll_rounds-classify 3 probes store site refl refl refl tt
      (omega arith, refl, (omega arith, refl, (omega arith, refl, tt)))

abbrev round : Round
round = record {
  store = store;
  locks = λ k. none;
  notified = [];
  result = record { probed = []; skipped_locked = []; failed = [] };
}

abbrev answers : String → Option ProbeResult
answers url = some good

abbrev busy : Round
busy = record round { locks = put 3 (some 99) (λ k. none) }
