-- ===== src/Uptime/History.antt =====
-- The status of a site as a function of its probes alone, and the proof that the poller, which
-- keeps a status and counts events in the database, computes it.
use mathlib.Core.Option
use scan_pal.Common.{
  ℕ, suc, ◌+◌, ◌≤◌, ◌<◌, max, ◌≡◌, ◌≢◌, refl, Option, none, some, List, [], ◌∷◌, ◌++◌, Bool, true,
  false, ◌||◌, ◌&&◌, not, arith, leb, if◌then◌else◌, All, count, ◌==◌, Bool-cases, inl, inr, ap,
  ◌∙◌,
}
use scan_pal.Uptime.State.{SiteStatus, up, down, unknown, is_up, is_down, transition_uptime_state}
use scan_pal.Uptime.Poll.{
  ProbeResult, UptimeEvent, UptimeSiteRow, Store, site_down, site_recovered, last_up,
  is_failure_after, count_trailing_failures, event_of, transition_of, with_state, poll_site,
}

-- The outcomes of a site's probes, the latest first.
abbrev pub trailing : List Bool → ℕ
trailing [] = 0
trailing (true ∷ h) = 0
trailing (false ∷ h) = suc (trailing h)

abbrev pub has_success : List Bool → Bool
has_success [] = false
has_success (ok ∷ h) = ok || has_success h

-- Down after two failures in a row, or if no probe ever succeeded; up after a success.
abbrev pub classify : List Bool → SiteStatus
classify [] = unknown
classify (true ∷ h) = up
classify (false ∷ h) = if leb 1 (trailing h) || not (has_success h) then down else up

-- Every event of the site is at most as late as `t`.
abbrev pub UpTo : ℕ → ℕ → List UptimeEvent → Type 0
UpTo site t = All (λ e. e.site_id ≡ site → e.checked_at ≤ t)

last_up-le : (site t : ℕ) (es : List UptimeEvent) → UpTo site t es → last_up site es ≤ t
unfolding last_up
last_up-le site t [] h = omega arith
last_up-le site t (e ∷ es) (h, hs) = ground (arith, last_up-le site t es hs)

last_up-snoc :
    (site : ℕ) (es : List UptimeEvent) (e : UptimeEvent)
    → last_up site (es ++ e ∷ []) ≡ max (last_up site es) (last_up site (e ∷ []))
unfolding last_up
last_up-snoc site [] e = ground arith
last_up-snoc site (x ∷ es) e = ground (arith, last_up-snoc site es e)

-- No event is later than the last one.
count-none :
    (site t : ℕ) (es : List UptimeEvent) → UpTo site t es → count (is_failure_after site t) es ≡ 0
count-none site t [] h = refl
count-none site t (e ∷ es) (h, hs) = ground (arith, count-none site t es hs)

UpTo-snoc :
    (site t t' : ℕ) (es : List UptimeEvent) (e : UptimeEvent)
    → UpTo site t es
    → t ≤ t'
    → e.checked_at ≤ t'
    → UpTo site t' (es ++ e ∷ [])
UpTo-snoc site t t' [] e h l m = (λ _. m, tt)
UpTo-snoc site t t' (x ∷ es) e (h, hs) l m =
    (λ p. omega (arith, h p), UpTo-snoc site t t' es e hs l m)

count-snoc :
    (site t : ℕ) (es : List UptimeEvent) (e : UptimeEvent)
    → count (is_failure_after site t) (es ++ e ∷ [])
      ≡ count (is_failure_after site t) es + count (is_failure_after site t) (e ∷ [])
count-snoc site t [] e = omega arith
count-snoc site t (x ∷ es) e = omega (arith, count-snoc site t es e)

-- A later success resets the count of trailing failures.
trailing-up :
    (site t : ℕ) (es : List UptimeEvent) (e : UptimeEvent)
    → UpTo site t es
    → t < e.checked_at
    → e.site_id ≡ site
    → e.status ≡ up
    → count_trailing_failures site (es ++ e ∷ []) ≡ 0
unfolding count_trailing_failures
trailing-up site t es e h l s u =
    let top : last_up site (es ++ e ∷ []) ≡ e.checked_at =
      unfold last_up in ground (arith, last_up-snoc site es e, last_up-le site t es h) in
    rw top (
      count-none site e.checked_at (es ++ e ∷ [])
        (UpTo-snoc site t e.checked_at es e h (omega arith) (omega arith)))

-- A later failure adds one.
trailing-down :
    (site t : ℕ) (es : List UptimeEvent) (e : UptimeEvent)
    → UpTo site t es
    → t < e.checked_at
    → e.site_id ≡ site
    → e.status ≡ down
    → count_trailing_failures site (es ++ e ∷ []) ≡ suc (count_trailing_failures site es)
unfolding count_trailing_failures
trailing-down site t es e h l s d =
    let top : last_up site (es ++ e ∷ []) ≡ last_up site es =
      unfold last_up in ground (arith, last_up-snoc site es e) in
    rw top (ground (arith, count-snoc site (last_up site es) es e, last_up-le site t es h))

-- The store of a site whose probes had the outcomes `h`, the last of them at `t`.
pub record Tracks (site t : ℕ) (h : List Bool) (store : Store) (row : UptimeSiteRow) : Type 0 where
  pub stored : store.sites site ≡ some row
  pub id : row.id ≡ site
  pub state : row.uptime_state ≡ classify h
  pub failures : count_trailing_failures site store.events ≡ trailing h
  pub up_to : UpTo site t store.events

-- What probe.ts returns: `status` says the same as `ok`.
abbrev pub IsConsistent : ProbeResult → Type 0
IsConsistent r = r.status ≡ (if r.ok then up else down)

-- The transition is the step of `classify`.
transition-classify :
    (result : ProbeResult) (row : UptimeSiteRow) (store : Store) (h : List Bool)
    → row.uptime_state ≡ classify h
    → count_trailing_failures row.id store.events ≡ trailing h
    → (if (transition_of result row store).changed
        then (transition_of result row store).state
        else row.uptime_state)
      ≡ classify (result.ok ∷ h)
unfolding transition_of transition_uptime_state
transition-classify result row store [] s f = ground arith
transition-classify result row store (true ∷ h) s f = ground arith
transition-classify result row store (false ∷ h) s f = ground arith

-- One poll of a site extends its history by the probe's outcome.
poll_site-Tracks :
    (sql_now now site t : ℕ) (h : List Bool) (result : ProbeResult) (store : Store)
    (row : UptimeSiteRow)
    → Tracks site t h store row
    → t < sql_now
    → IsConsistent result
    → Tracks site sql_now (result.ok ∷ h) (poll_site sql_now now result row store).0 (
        if (transition_of result row store).changed
        then with_state (transition_of result row store).state now row
        else row)
unfolding poll_site
poll_site-Tracks sql_now now site t h result store row k l c = record {
  stored = ground (arith, k.stored, k.id);
  id = ground (arith, k.id);
  state = ground (arith, transition-classify result row store h k.state (rw k.id k.failures));
  failures = elim (Bool-cases result.ok) [
    | inl good ↦ rw good (
        trailing-up site t store.events (event_of row.id sql_now result) k.up_to l k.id
          (ground arith))
    | inr bad ↦ rw bad (
        trailing-down site t store.events (event_of row.id sql_now result) k.up_to l k.id
          (ground arith)
        ∙ ap suc k.failures)
  ];
  up_to = UpTo-snoc site t sql_now store.events _ k.up_to (omega arith) (omega arith);
}

-- A probe of one site: the time of its insert, that of the round, and its result.
pub record Probe : Type 0 where
  pub sql_now : ℕ
  pub now : ℕ
  pub result : ProbeResult

-- A round polls the row that is stored at the time.
unfoldable pub poll_stored : ℕ → Probe → Store → Store
poll_stored site p store = elim (store.sites site) [
  | none ↦ store
  | some row ↦ (poll_site p.sql_now p.now p.result row store).0
]

unfoldable pub poll_rounds : ℕ → List Probe → Store → Store
poll_rounds site [] store = store
poll_rounds site (p ∷ ps) store = poll_rounds site ps (poll_stored site p store)

-- The outcomes of `ps` put before `h`, the latest first.
abbrev pub outcomes : List Bool → List Probe → List Bool
outcomes h [] = h
outcomes h (p ∷ ps) = outcomes (p.result.ok ∷ h) ps

abbrev pub IsOrdered : ℕ → List Probe → Type 0
IsOrdered t [] = Unit
IsOrdered t (p ∷ ps) = (t < p.sql_now) × IsConsistent p.result × IsOrdered p.sql_now ps

abbrev pub state_of : ℕ → Store → Option SiteStatus
state_of site store = Option.map (λ row. row.uptime_state) (store.sites site)

poll_stored_lem :
    (site : ℕ) (p : Probe) (store : Store) (row : UptimeSiteRow)
    → store.sites site ≡ some row
    → poll_stored site p store ≡ (poll_site p.sql_now p.now p.result row store).0
unfolding poll_stored
poll_stored_lem site p store row e = ground arith

poll_rounds-Tracks :
    (site t : ℕ) (h : List Bool) (ps : List Probe) (store : Store) (row : UptimeSiteRow)
    → Tracks site t h store row
    → IsOrdered t ps
    → state_of site (poll_rounds site ps store) ≡ some (classify (outcomes h ps))
unfolding poll_rounds
poll_rounds-Tracks site t h [] store row k o = rw k.stored (ap some k.state)
poll_rounds-Tracks site t h (p ∷ ps) store row k (l, c, o) =
    ap (λ s. state_of site (poll_rounds site ps s)) (poll_stored_lem site p store row k.stored)
    ∙ poll_rounds-Tracks site p.sql_now (p.result.ok ∷ h) ps _ _
        (poll_site-Tracks p.sql_now p.now site t h p.result store row k l c) o

fresh-UpTo : (site : ℕ) (es : List UptimeEvent) → All (λ e. e.site_id ≢ site) es → UpTo site 0 es
fresh-UpTo site [] h = tt
fresh-UpTo site (e ∷ es) (h, hs) = (λ p. absurd (h p), fresh-UpTo site es hs)

fresh-trailing :
    (site : ℕ) (es : List UptimeEvent)
    → All (λ e. e.site_id ≢ site) es
    → count_trailing_failures site es ≡ 0
unfolding count_trailing_failures
fresh-trailing site es h =
    let top : last_up site es ≡ 0 = omega (arith, last_up-le site 0 es (fresh-UpTo site es h)) in
    rw top (count-none site 0 es (fresh-UpTo site es h))

-- After any sequence of polls of a site that was never probed, in increasing order of time, the
-- stored status is the one that the outcomes alone determine: unknown without probes, up after a
-- success, down after two failures in a row or when no probe has succeeded yet, and otherwise up.
pub poll_rounds-classify :
    (site : ℕ) (ps : List Probe) (store : Store) (row : UptimeSiteRow)
    → store.sites site ≡ some row
    → row.id ≡ site
    → row.uptime_state ≡ unknown
    → All (λ e. e.site_id ≢ site) store.events
    → IsOrdered 0 ps
    → state_of site (poll_rounds site ps store) ≡ some (classify (outcomes [] ps))
poll_rounds-classify site ps store row e i u fresh o =
    poll_rounds-Tracks site 0 [] ps store row
      (record {
        stored = e;
        id = i;
        state = u;
        failures = fresh-trailing site store.events fresh;
        up_to = fresh-UpTo site store.events fresh;
      })
      o

-- A poll notifies of a recovery exactly when the probe succeeds and the site was not up, also
-- when it was never probed; of an outage exactly when the probe fails and the site was never
-- probed, or was up with a failure counted before this one; of nothing otherwise.
pub poll_site-notifies :
    (sql_now now : ℕ) (result : ProbeResult) (row : UptimeSiteRow) (store : Store)
    → (Option.map (λ n. n.type) (poll_site sql_now now result row store).1) ≡ (
        if result.ok
        then (if is_up row.uptime_state then none else some site_recovered)
        else (if is_down row.uptime_state
            then none
            else (if is_up row.uptime_state && (count_trailing_failures row.id store.events == 0)
                then none
                else some site_down)))
unfolding poll_site transition_of transition_uptime_state
poll_site-notifies sql_now now result row store = ground arith
