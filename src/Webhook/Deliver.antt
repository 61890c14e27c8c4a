-- ===== src/Webhook/Deliver.antt =====
-- packages/notify/src/webhook-deliverer.ts: `postGuarded`, `disableWebhook`, `handleFailure` and
-- `deliverOne`. What the code calls is a parameter, `World`: the SSRF guard on a URL, decryption,
-- the size of the envelope's text, `fetch` and the resolution of a redirect. The two clocks,
-- `now()` of the database and of the process, are read once in a call.
use scan_pal.Common.{
  ℕ, zero, suc, ◌+◌, ◌*◌, Option, none, some, List, [], ◌∷◌, Bool, false, ◌&&◌, not, String, str_eq,
  ltb, leb, if◌then◌else◌, modify,
}
use scan_pal.Webhook.Outbox.{
  DeliveryStatus, ErrorText, ssrf, plain, payload_too_large, too_many_redirects, decrypt_error,
  http_error, http_code, DeliveryRow, WebhookRow, Outbox, DeliveryJoinRow, max_attempts,
  max_redirects, backoff_ms, is_permanent, select_join,
}

pub data UrlAllowance : Type 0 where
  allowed : UrlAllowance
  refused : (reason : String) → UrlAllowance

-- A response with its `location` header (`none` if it is missing or empty), or an exception.
pub data FetchResult : Type 0 where
  response : (status : ℕ) → (location : Option String) → FetchResult
  throws : (error : String) → FetchResult

pub data DecryptResult : Type 0 where
  secret : String → DecryptResult
  throws : (error : String) → DecryptResult

pub record World : Type 0 where
  pub is_url_allowed : String → UrlAllowance
  pub decrypt : String → DecryptResult
  pub body_bytes : DeliveryJoinRow → ℕ
  pub fetch : String → FetchResult
  pub resolve_url : (location current : String) → Option String
  pub sql_now : ℕ
  pub js_now : ℕ

pub data PostResult : Type 0 where
  posted : (status : ℕ) → PostResult
  refused : (reason : ErrorText) → PostResult
  threw : (error : String) → PostResult

-- A step of the redirect loop ends it or goes on at another URL.
pub data PostStep : Type 0 where
  stop : PostResult → PostStep
  go : String → PostStep

abbrev pub follow : String → ℕ → Option String → World → PostStep
follow current status none world = stop (posted status)
follow current status (some location) world =
    if leb 300 status && ltb status 400
    then elim (world.resolve_url location current) [
      | none ↦ stop (threw "invalid-url")
      | some next ↦ go next
    ]
    else stop (posted status)

abbrev pub after_fetch : String → FetchResult → World → PostStep
after_fetch current (response status location) world = follow current status location world
after_fetch current (FetchResult.throws e) world = stop (threw e)

abbrev pub end_step :
    PostStep → List String → (String → PostResult × List String) → PostResult × List String
end_step (stop r) fetched more = (r, fetched)
end_step (go next) fetched more = more next

-- One round: the guard comes before the request.
abbrev pub end_round :
    UrlAllowance
    → PostStep
    → String
    → List String
    → (String → PostResult × List String)
    → PostResult × List String
end_round (UrlAllowance.refused reason) step current fetched more =
    (PostResult.refused (ssrf reason), fetched)
end_round allowed step current fetched more = end_step step (current ∷ fetched) more

-- The loop of `postGuarded` with `rounds` rounds left. `fetched` collects the URLs that are
-- requested, the latest first.
unfoldable pub post_loop : World → ℕ → String → List String → PostResult × List String
post_loop world zero current fetched = (PostResult.refused too_many_redirects, fetched)
post_loop world (suc rounds) current fetched =
    end_round (world.is_url_allowed current) (after_fetch current (world.fetch current) world)
      current fetched (λ next. post_loop world rounds next (current ∷ fetched))

unfoldable pub post_guarded : World → String → PostResult × List String
post_guarded world url = post_loop world (suc max_redirects) url []

pub data DeliveryOutcome : Type 0 where
  ok : DeliveryOutcome
  rejected : (reason : Option ErrorText) → DeliveryOutcome
  failed disabled not_found : DeliveryOutcome

-- `set active = false, failure_count = failure_count + 1`, and the delivery's row.
unfoldable pub disable_webhook : World → DeliveryJoinRow → ℕ → Outbox → Outbox
disable_webhook world row attempts box = record box {
  webhooks =
      modify row.delivery.webhook_id
        (λ (w : WebhookRow). record w { active = false; failure_count = w.failure_count + 1 })
        box.webhooks;
  deliveries =
      modify row.delivery.id
        (λ (d : DeliveryRow). record d {
          status = DeliveryStatus.disabled;
          attempts = attempts;
          delivered_at = some world.sql_now;
        })
        box.deliveries;
}

abbrev pub is_test : DeliveryRow → Bool
is_test d = str_eq d.event "test"

-- The last part of `handleFailure`: the backoff, and the webhook's counters.
unfoldable pub schedule_retry : World → DeliveryJoinRow → ℕ → ErrorText → Option ℕ → Outbox → Outbox
unfolding backoff_ms
schedule_retry world row attempts error http_status box = record box {
  deliveries =
      modify row.delivery.id
        (λ (d : DeliveryRow). record d {
          status = DeliveryStatus.failed;
          http_status = http_status;
          error = some error;
          attempts = attempts;
          next_attempt_at = some (world.js_now + backoff_ms attempts);
        })
        box.deliveries;
  webhooks =
      modify row.delivery.webhook_id
        (λ (w : WebhookRow). record w {
          last_delivery_at = some world.sql_now;
          last_http_status = http_status;
          failure_count = w.failure_count + 1;
        })
        box.webhooks;
}

-- A failed test delivery: no retry is planned.
unfoldable pub fail_test : World → DeliveryJoinRow → ℕ → ErrorText → Option ℕ → Outbox → Outbox
fail_test world row attempts error http_status box = record box {
  deliveries =
      modify row.delivery.id
        (λ (d : DeliveryRow). record d {
          status = DeliveryStatus.failed;
          http_status = http_status;
          error = some error;
          attempts = attempts;
          delivered_at = some world.sql_now;
        })
        box.deliveries;
}

unfoldable pub handle_failure :
    World → DeliveryJoinRow → ℕ → ErrorText → Option ℕ → Outbox → Outbox × DeliveryOutcome
unfolding disable_webhook schedule_retry fail_test
handle_failure world row attempts error http_status box =
    if is_test row.delivery
    then (fail_test world row attempts error http_status box, DeliveryOutcome.failed)
    else (if leb max_attempts attempts
        then (disable_webhook world row attempts box, DeliveryOutcome.disabled)
        else (schedule_retry world row attempts error http_status box, DeliveryOutcome.failed))

-- `set status = 'rejected', attempts = $2, error = $3, delivered_at = now()`.
unfoldable pub reject : World → DeliveryJoinRow → ℕ → ErrorText → Outbox → Outbox
reject world row attempts error box = record box {
  deliveries =
      modify row.delivery.id
        (λ (d : DeliveryRow). record d {
          status = DeliveryStatus.rejected;
          attempts = attempts;
          error = some error;
          delivered_at = some world.sql_now;
        })
        box.deliveries;
}

unfoldable pub succeed : World → DeliveryJoinRow → ℕ → ℕ → Outbox → Outbox
succeed world row attempts status box = record box {
  deliveries =
      modify row.delivery.id
        (λ (d : DeliveryRow). record d {
          status = DeliveryStatus.ok;
          http_status = some status;
          error = none;
          attempts = attempts;
          next_attempt_at = none;
          delivered_at = some world.sql_now;
        })
        box.deliveries;
  webhooks =
      modify row.delivery.webhook_id
        (λ (w : WebhookRow). record w {
          last_delivery_at = some world.sql_now;
          last_http_status = some status;
          failure_count = 0;
        })
        box.webhooks;
}

-- A permanent 4xx answer.
unfoldable pub reject_status : World → DeliveryJoinRow → ℕ → ℕ → Outbox → Outbox
reject_status world row attempts status box = record box {
  deliveries =
      modify row.delivery.id
        (λ (d : DeliveryRow). record d {
          status = DeliveryStatus.rejected;
          http_status = some status;
          attempts = attempts;
          delivered_at = some world.sql_now;
        })
        box.deliveries;
  webhooks =
      modify row.delivery.webhook_id
        (λ (w : WebhookRow). record w {
          last_delivery_at = some world.sql_now;
          last_http_status = some status;
        })
        box.webhooks;
}

-- What follows the answer of the endpoint.
abbrev pub after_post : World → DeliveryJoinRow → ℕ → PostResult → Outbox → Outbox × DeliveryOutcome
after_post world row attempts (threw e) box =
    handle_failure world row attempts (http_error e) none box
after_post world row attempts (PostResult.refused reason) box =
    (reject world row attempts reason box, DeliveryOutcome.rejected (some reason))
after_post world row attempts (posted status) box =
    if leb 200 status && ltb status 300
    then (succeed world row attempts status box, DeliveryOutcome.ok)
    else (if is_permanent status
        then (
          reject_status world row attempts status box,
          DeliveryOutcome.rejected (some (http_code status)),
        )
        else handle_failure world row attempts (http_code status) (some status) box)

abbrev pub webhook_max_payload_bytes : ℕ
webhook_max_payload_bytes = 256 * 1024

-- With the secret at hand: the size limit and the request.
abbrev pub after_decrypt :
    World → DeliveryJoinRow → ℕ → DecryptResult → Outbox → Outbox × DeliveryOutcome
after_decrypt world row attempts (DecryptResult.throws e) box =
    handle_failure world row attempts (decrypt_error e) none box
after_decrypt world row attempts (secret key) box =
    if ltb webhook_max_payload_bytes (world.body_bytes row)
    then (
      reject world row attempts payload_too_large box,
      DeliveryOutcome.rejected (some payload_too_large),
    )
    else after_post world row attempts (post_guarded world row.webhook.url).0 box

abbrev pub after_guard :
    World → DeliveryJoinRow → ℕ → UrlAllowance → Outbox → Outbox × DeliveryOutcome
after_guard world row attempts (UrlAllowance.refused reason) box =
    (reject world row attempts (ssrf reason) box, DeliveryOutcome.rejected (some (plain reason)))
after_guard world row attempts allowed box =
    after_decrypt world row attempts (world.decrypt row.webhook.secret_encrypted) box

-- An attempt at a delivery that is pending or failed.
unfoldable pub attempt : World → DeliveryJoinRow → Outbox → Outbox × DeliveryOutcome
unfolding handle_failure reject succeed reject_status is_permanent
attempt world row box =
    if not row.webhook.active
    then (
      record box {
        deliveries =
            modify row.delivery.id
              (λ (d : DeliveryRow). record d { status = DeliveryStatus.disabled }) box.deliveries;
      },
      DeliveryOutcome.disabled,
    )
    else after_guard world row (row.delivery.attempts + 1) (world.is_url_allowed row.webhook.url)
        box

-- The early returns of `deliverOne`, by the status of the row.
abbrev pub deliver_status :
    DeliveryStatus → World → DeliveryJoinRow → Outbox → Outbox × DeliveryOutcome
deliver_status DeliveryStatus.ok world row box = (box, DeliveryOutcome.ok)
deliver_status DeliveryStatus.rejected world row box = (box, DeliveryOutcome.rejected none)
deliver_status DeliveryStatus.disabled world row box = (box, DeliveryOutcome.disabled)
deliver_status DeliveryStatus.pending world row box = attempt world row box
deliver_status DeliveryStatus.failed world row box = attempt world row box

abbrev pub deliver_row : World → Option DeliveryJoinRow → Outbox → Outbox × DeliveryOutcome
deliver_row world none box = (box, not_found)
deliver_row world (some row) box = deliver_status row.delivery.status world row box

unfoldable pub deliver_one : World → ℕ → Outbox → Outbox × DeliveryOutcome
unfolding select_join
deliver_one world id box = deliver_row world (select_join id box) box
