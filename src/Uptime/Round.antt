-- ===== src/Uptime/Round.antt =====
-- apps/worker/src/uptime/poller.ts, `pollAllSites`, with the locks of apps/worker/src/uptime/lock.ts:
-- one round over the monitored sites. A lock that expires during a round is not modelled. The token
-- of a lock is the number of the site's turn, fresh in each round.
use scan_pal.Common.{
  ℕ, suc, ◌+◌, ◌≡◌, refl, Option, none, some, List, [], ◌∷◌, ◌++◌, Bool, true, false, arith, String,
  if◌then◌else◌, ◌==◌, put, length, length-append, ◌∙◌,
}
use scan_pal.Uptime.Poll.{ProbeResult, UptimeSiteRow, Store, NotifyInput, poll_site}

-- Redis: the token under each lock key. A key is `uptime:lock:` and the site's id.
abbrev pub Locks : Type 0
Locks = ℕ → Option ℕ

-- `SET key token EX ttl NX`.
unfoldable pub acquire_lock : ℕ → ℕ → Locks → Locks × Bool
acquire_lock key token locks = elim (locks key) [
  | none ↦ (put key (some token) locks, true)
  | some other ↦ (locks, false)
]

abbrev holds : ℕ → Option ℕ → Bool
holds token none = false
holds token (some t) = t == token

-- The release script: delete the key if the token is still its value.
unfoldable pub release_lock : ℕ → ℕ → Locks → Locks
release_lock key token locks = if holds token (locks key) then put key none locks else locks

pub record PollResult : Type 0 where
  pub probed : List ℕ
  pub skipped_locked : List ℕ
  pub failed : List ℕ

pub record Round : Type 0 where
  pub store : Store
  pub locks : Locks
  pub notified : List NotifyInput
  pub result : PollResult

abbrev add_notice : Option NotifyInput → List NotifyInput → List NotifyInput
add_notice none ns = ns
add_notice (some n) ns = ns ++ n ∷ []

-- `pollSite` throws when the probe does, and writes nothing then: `probe` has no result.
abbrev try_poll : (sql_now now : ℕ) → Option ProbeResult → UptimeSiteRow → Round → Round
try_poll sql_now now none site r = record r {
  result = record (r.result) { failed = r.result.failed ++ site.id ∷ [] };
}
try_poll sql_now now (some result) site r =
    let (store, notice) = poll_site sql_now now result site r.store in
    record r {
      store = store;
      notified = add_notice notice r.notified;
      result = record (r.result) { probed = r.result.probed ++ site.id ∷ [] };
    }

-- One turn of the loop: `continue` without the lock, and a release in `finally`.
unfoldable pub poll_turn :
    (sql_now now token : ℕ) → (String → Option ProbeResult) → UptimeSiteRow → Round → Round
unfolding acquire_lock release_lock
poll_turn sql_now now token probe site r =
    let (locks, acquired) = acquire_lock site.id token r.locks in
    if acquired
    then (let r' = try_poll sql_now now (probe site.url) site (record r { locks = locks }) in
        record r' { locks = release_lock site.id token r'.locks })
    else record r {
      result = record (r.result) { skipped_locked = r.result.skipped_locked ++ site.id ∷ [] };
    }

-- The loop over the rows of the query for monitored sites.
unfoldable pub poll_all_sites :
    (sql_now now token : ℕ) → (String → Option ProbeResult) → List UptimeSiteRow → Round → Round
poll_all_sites sql_now now token probe [] r = r
poll_all_sites sql_now now token probe (site ∷ sites) r =
    poll_all_sites sql_now now (suc token) probe sites (poll_turn sql_now now token probe site r)

abbrev pub handled : PollResult → ℕ
handled p = length p.probed + length p.skipped_locked + length p.failed

poll_turn-locks :
    (sql_now now token : ℕ) (probe : String → Option ProbeResult) (site : UptimeSiteRow) (r : Round)
    (key : ℕ)
    → (poll_turn sql_now now token probe site r).locks key ≡ r.locks key
unfolding poll_turn
poll_turn-locks sql_now now token probe site r key = ground arith

poll_turn-handled :
    (sql_now now token : ℕ) (probe : String → Option ProbeResult) (site : UptimeSiteRow) (r : Round)
    → handled (poll_turn sql_now now token probe site r).result ≡ suc (handled r.result)
unfolding poll_turn
poll_turn-handled sql_now now token probe site r = ground (
  arith,
  length-append r.result.probed (site.id ∷ []),
  length-append r.result.skipped_locked (site.id ∷ []),
  length-append r.result.failed (site.id ∷ []),
)

-- A round leaves every lock as it found it, whether probes succeed, fail or are skipped, and the
-- lists of probed, skipped and failed sites grow together by the number of monitored sites.
pub poll_all_sites-balanced :
    (sql_now now token : ℕ) (probe : String → Option ProbeResult) (sites : List UptimeSiteRow)
    (r : Round)
    → ((key : ℕ) → (poll_all_sites sql_now now token probe sites r).locks key ≡ r.locks key)
      × (handled (poll_all_sites sql_now now token probe sites r).result
          ≡ length sites + handled r.result)
unfolding poll_all_sites
poll_all_sites-balanced sql_now now token probe [] r = (λ key. refl, omega arith)
poll_all_sites-balanced sql_now now token probe (site ∷ sites) r =
    let r' = poll_turn sql_now now token probe site r in
    let (locks, counts) = poll_all_sites-balanced sql_now now (suc token) probe sites r' in
    (
      λ key. locks key ∙ poll_turn-locks sql_now now token probe site r key,
      omega (arith, counts, poll_turn-handled sql_now now token probe site r),
    )

-- A site that is locked by another poller is left alone: no event, no status and no notification.
pub poll_turn-locked :
    (sql_now now token other : ℕ) (probe : String → Option ProbeResult) (site : UptimeSiteRow)
    (r : Round)
    → r.locks site.id ≡ some other
    → ((poll_turn sql_now now token probe site r).store ≡ r.store)
      × ((poll_turn sql_now now token probe site r).notified ≡ r.notified)
unfolding poll_turn
poll_turn-locked sql_now now token other probe site r h = ground arith
