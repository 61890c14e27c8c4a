-- ===== src/Lib.antt =====
-- ScanPal, a website scanner: a verification library of its core logic.
--
-- The web app and the scheduler create scans, workers carry them out, and PostgreSQL holds the
-- state that all of them share. This library models the parts that decide: who may scan and at
-- what cost, when a scan runs, how a site's uptime is judged, how events are sent out, who
-- is in a team, and what a scan's findings add up to.
--
--   Common           the shared names, Boolean tests, tables by primary key, lemmas on lists
--   Billing          packages/shared/src/plans.ts, packages/scan-core/src/credits.ts and
--                    apps/scheduler/src/credits.ts: plans, credits and refunds
--   Schedule         packages/shared/src/schedule.ts and apps/scheduler/src/core.ts: the next run,
--                    and the scheduler's round, which spends through Billing
--   Uptime           apps/worker/src/uptime/state.ts, poller.ts and lock.ts
--   Webhook          packages/notify/src/webhook-deliverer.ts and webhook-security.ts
--   Team             apps/web/lib/invites-core.ts: seats, invitations, roles; its seat limit comes
--                    from the plans of Billing
--   Scan             packages/shared/src/findings.ts, severity.ts, scan-progress.ts, scoring.ts,
--                    diff.ts, check-catalog.ts and scan-progress-math.ts: the counts, the scores,
--                    the diff with its fingerprints, and the progress of a scan
--   Lifecycle        the life of a scan in the database, from its creation to its end: createManualScan,
--                    cancelScan and setSiteSchedule of apps/web/lib/scans-core.ts; finish-scan.ts,
--                    scan-diff.ts, finding-status.ts and progress.ts of packages/scan-core/src;
--                    dispatcher.ts and markScanFailed of apps/worker/src/queues. It spends and refunds
--                    through Billing, and takes the diff and the progress from Scan
--   Aggregate        packages/scan-core/src/checks.ts, crux.ts, build-findings.ts and notifications.ts,
--                    packages/shared/src/crux.ts and apps/worker/src/queues/aggregate.ts: the results of
--                    the checks, the findings that they come to, and the last job of a scan, which ends
--                    it through Lifecycle with the scores of Scan and sends messages to Notify
--   Notify           packages/notify/src/index.ts: the notification hub, with the memberships of Team
--   Crawl            packages/shared/src/routes.ts, packages/scan-core/src/routes.ts and
--                    apps/worker/src/queues/crawl.ts: robots.txt and the routes of a scan
--   Domain           packages/shared/src/domain.ts and packages/scan-core/src/domain.ts: the watch over a
--                    domain
--   Worker           apps/worker/src/concurrency.ts: the bounded pool of calls
--   Api              apps/web/lib/rate-limit.ts, api-keys-core.ts, api-hmac.ts, api-auth.ts and
--                    team-core.ts: who is let in, with the rates of the plans of Billing, and the team
--                    that a user's first request makes
--   Threat           apps/web/lib/threat-rules.ts: the analysis of a honeypot's hits
--   Site             packages/scan-core/src/ownership.ts and packages/shared/src/ownership.ts: the proof
--                    that a team owns a site's domain
--   Billing/Stripe   apps/web/lib/billing-core.ts: Stripe's events, on the ledger of Billing
--
-- A function of the source keeps its name in snake case, and so do fields and constants. A table
-- is a function of its primary key where the code reads it by key, and a list of rows where it is
-- searched. The statements of a transaction run one after the other, each a function on the
-- tables; a guard or an early return is a branch. Ids are natural numbers, since the code only
-- compares them; times are milliseconds since 1970.
--
-- Loops over rows are recursions on the list. The redirect loop of `postGuarded` counts its rounds
-- down from MAX_REDIRECTS + 1, as the source's `for` does. The loops of `sha256hex` count down
-- their fixed numbers of rounds. The bulk write of checks counts its chunks down from the number of
-- rows, which is enough since each chunk has one at least. No other fuel is used.
--
-- The scores of Scan take their arithmetic on doubles from an interface with the laws of correct
-- rounding; exact arithmetic meets it.
--
-- What several processes do at once is a step relation: the steps on a scan's database (Lifecycle)
-- and the turns of the workers (Worker), in any order. A statement that reads and one that writes
-- without a transaction are two functions, and one theorem runs another step between them; as a
-- step, the dispatcher's write comes while the scan is still queued, as it was read. Redis
-- is an interface of three commands with the laws of its documentation, which a table in memory
-- meets.
--
-- The order in which PostgreSQL returns the rows of a scan's checks is an argument of the aggregator, and
-- so are the columns of the workers that it reads. The crawler takes the URLs that its requests and
-- regular expressions gave; `new URL` is a parameter. The texts of a dedup key are the tuples of their
-- parts. In Domain the instants of texts and what a column gives back of a text are parameters.
--
-- Not modelled: HTTP requests, DNS, signatures and encryption, which are parameters; the checks that
-- the workers run on a page, with their evidence; the templates and the sending of mails; the
-- normalisation of URLs; the parsers of RDAP, WHOIS, SPF and DMARC; the user interface; failures of
-- the database itself.
pub mod Common
pub mod Billing
pub mod Uptime
pub mod Schedule
pub mod Webhook
pub mod Team
pub mod Scan
pub mod Lifecycle
pub mod Worker
pub mod Api
pub mod Threat
pub mod Site
pub mod Notify
pub mod Crawl
pub mod Domain
pub mod Aggregate
