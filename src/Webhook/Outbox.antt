-- ===== src/Webhook/Outbox.antt =====
-- The outbox of packages/notify/src/webhook-deliverer.ts: the tables `webhooks` and
-- `webhook_deliveries` by primary key, with the ids of the deliveries in the order of `created_at`.
-- Times are milliseconds. `payload` is the text of its JSON.
use scan_pal.Common.{
  ℕ, ◌*◌, Option, none, some, List, [], ◌∷◌, Bool, String, ◌==◌, if◌then◌else◌, exists,
}

pub data DeliveryStatus : Type 0 where
  pending ok failed rejected disabled : DeliveryStatus

-- The texts that the code puts into `error` and `reason`: `ssrf:` with a reason, a reason alone,
-- `decrypt:` and `http:` with an exception, `http-` with a status.
pub data ErrorText : Type 0 where
  ssrf plain decrypt_error http_error : String → ErrorText
  payload_too_large too_many_redirects : ErrorText
  http_code : ℕ → ErrorText

pub record DeliveryRow : Type 0 where
  pub id : ℕ
  pub webhook_id : ℕ
  pub event : String
  pub payload : String
  pub status : DeliveryStatus
  pub http_status : Option ℕ
  pub error : Option ErrorText
  pub attempts : ℕ
  pub next_attempt_at : Option ℕ
  pub dedup_key : String
  pub created_at : ℕ
  pub delivered_at : Option ℕ

pub record WebhookRow : Type 0 where
  pub id : ℕ
  pub team_id : ℕ
  pub name : String
  pub url : String
  pub secret_encrypted : String
  pub active : Bool
  pub failure_count : ℕ
  pub last_delivery_at : Option ℕ
  pub last_http_status : Option ℕ

pub record Outbox : Type 0 where
  pub deliveries : ℕ → Option DeliveryRow
  pub delivery_ids : List ℕ
  pub webhooks : ℕ → Option WebhookRow

-- A row of the join of the two tables.
pub record DeliveryJoinRow : Type 0 where
  pub delivery : DeliveryRow
  pub webhook : WebhookRow

abbrev pub max_attempts : ℕ
max_attempts = 5

abbrev pub max_redirects : ℕ
max_redirects = 5

abbrev pub claim_lease_ms : ℕ
claim_lease_ms = 15 * 60000

-- `BACKOFF_MS[attempts - 1] ?? BACKOFF_MS[BACKOFF_MS.length - 1]`, for `attempts` from 1 on.
unfoldable pub backoff_ms : ℕ → ℕ
backoff_ms attempts =
    if attempts == 1
    then 60000
    else (if attempts == 2 then 5 * 60000 else (if attempts == 3 then 30 * 60000 else 2 * 3600000))

abbrev pub permanent_4xx : List ℕ
permanent_4xx = 400 ∷ 401 ∷ 403 ∷ 404 ∷ 410 ∷ []

unfoldable pub is_permanent : ℕ → Bool
is_permanent status = exists (λ (c : ℕ). c == status) permanent_4xx

abbrev join_webhook : DeliveryRow → Option WebhookRow → Option DeliveryJoinRow
join_webhook d none = none
join_webhook d (some w) = some (record { delivery = d; webhook = w })

abbrev join_row : Option DeliveryRow → (ℕ → Option WebhookRow) → Option DeliveryJoinRow
join_row none webhooks = none
join_row (some d) webhooks = join_webhook d (webhooks d.webhook_id)

-- `SELECT_JOIN where d.id = $1`.
unfoldable pub select_join : ℕ → Outbox → Option DeliveryJoinRow
select_join id box = join_row (box.deliveries id) box.webhooks
