-- ===== src/Webhook/Tests.antt =====
-- Runs of the deliverer, and the theorems about it at concrete inputs.
use scan_pal.Common.{
  suc, ◌≤◌, ◌≡◌, refl, none, some, List, [], ◌∷◌, true, false, arith, String, put, length, All,
  if◌then◌else◌, str_eq,
}
use scan_pal.Webhook.Outbox.{DeliveryStatus, DeliveryRow, WebhookRow, Outbox, max_redirects}
use scan_pal.Webhook.Deliver.{allowed, response, secret, World, post_guarded}
use scan_pal.Webhook.Redirect.{post_guarded-allowed}
use scan_pal.Webhook.Claim.{claim, due_ids, has_id, claim-claim}
use scan_pal.Webhook.Guard.{Net, v4, no_address}

-- An endpoint that answers 503.
abbrev down_world : World
down_world = record {
  is_url_allowed = λ u. allowed;
  decrypt = λ t. secret "key";
  body_bytes = λ r. 100;
  fetch = λ u. response 503 none;
  resolve_url = λ l c. some l;
  sql_now = 1000;
  js_now = 1000;
}

abbrev delivery : String → DeliveryStatus → DeliveryRow
delivery event status = record {
  id = 1;
  webhook_id = 2;
  event = event;
  payload = "{}";
  status = status;
  http_status = none;
  error = none;
  attempts = 0;
  next_attempt_at = some 500;
  dedup_key = "k";
  created_at = 400;
  delivered_at = none;
}

abbrev hook : WebhookRow
hook = record {
  id = 2;
  team_id = 7;
  name = "ci";
  url = "https://example.com/hook";
  secret_encrypted = "v1";
  active = true;
  failure_count = 0;
  last_delivery_at = none;
  last_http_status = none;
}

abbrev box_of : DeliveryRow → Outbox
box_of d = record {
  deliveries = put 1 (some d) (λ i. none);
  delivery_ids = 1 ∷ [];
  webhooks = put 2 (some hook) (λ i. none);
}

abbrev scan_done : DeliveryRow
scan_done = delivery "scan_done" DeliveryStatus.pending

abbrev test_row : DeliveryRow
test_row = delivery "test" DeliveryStatus.failed

abbrev five : List World
five = down_world ∷ down_world ∷ down_world ∷ down_world ∷ down_world ∷ []

post_guarded-allowed_example :
    All (λ u. down_world.is_url_allowed u ≡ allowed) (post_guarded down_world "https://a").1
    × (length (post_guarded down_world "https://a").1 ≤ suc max_redirects)
post_guarded-allowed_example = post_guarded-allowed down_world "https://a"

claim-claim_example : has_id 1 (claim 2000 (claim 1000 (box_of scan_done)).0).1 ≡ false
claim-claim_example =
    claim-claim 1000 2000 1 (box_of scan_done) (claim 1000 (box_of scan_done)).0
      (unfold claim due_ids in refl) refl (omega arith)

abbrev net : Net
net = record {
  parse_url = λ u. some (record { protocol = "https:"; host = "example.com" });
  ends_with = λ s t. false;
  read_address = λ s. if str_eq s "example.com" then no_address else v4 93 184;
  lookup = λ s. some ("93.184.216.34" ∷ []);
  is_production = true;
}
