-- ===== src/Notify/Hub.antt =====
-- packages/notify/src/index.ts, `createNotifier`: one event becomes a notification and a mail for each
-- member of the team who wants it, and a row of the outbox for each webhook that asked for it. The
-- text of a dedup key is the tuple of its parts: ids hold no colon. The texts of a notification are left
-- out, and whether a mail can be sent is a parameter.
use scan_pal.Common.{
  ℕ, suc, Option, none, some, List, [], ◌∷◌, ◌++◌, Bool, true, false, ◌&&◌, ◌==◌, if◌then◌else◌,
  length, select, exists,
}
use scan_pal.Team.Store.{Membership, pending, accepted}

pub data NotificationType : Type 0 where
  scan_done score_drop scan_diff site_down site_recovered critical_finding credit_skip scan_failed
        webhook_disabled payment_failed domain_alert :
      NotificationType

-- The position in `notificationTypes`, by which types are compared.
abbrev pub type_index : NotificationType → ℕ
type_index scan_done = 0
type_index score_drop = 1
type_index scan_diff = 2
type_index site_down = 3
type_index site_recovered = 4
type_index critical_finding = 5
type_index credit_skip = 6
type_index scan_failed = 7
type_index webhook_disabled = 8
type_index payment_failed = 9
type_index domain_alert = 10

unfoldable pub default_enabled : NotificationType → Bool
default_enabled scan_done = false
default_enabled _ = true

abbrev pub same_id : Option ℕ → Option ℕ → Bool
same_id none none = true
same_id (some a) (some b) = a == b
same_id _ _ = false

module _ (P : Type 0) where
  pub record NotifyInput : Type 0 where
    pub type : NotificationType
    pub team_id : ℕ
    pub entity_id : ℕ
    pub incident_id : Option ℕ
    pub payload : P

  -- A row of `notifications`, or of `webhook_deliveries`: `target` is the user, or the webhook.
  pub record Sent : Type 0 where
    pub target : ℕ
    pub input : NotifyInput

  pub record WebhookRow : Type 0 where
    pub id : ℕ
    pub team_id : ℕ
    pub active : Bool
    pub events : List NotificationType

  pub record Store : Type 0 where
    pub memberships : List Membership
    pub preference : (user_id : ℕ) → NotificationType → Option Bool
    pub webhooks : List WebhookRow
    pub notifications : List Sent
    pub deliveries : List Sent

  pub record NotifyResult : Type 0 where
    pub recipients : ℕ
    pub inserted : ℕ
    pub deduped : ℕ
    pub emails_sent : ℕ
    pub emails_failed : ℕ
    pub outbox_queued : ℕ

  abbrev pub is_recipient : NotifyInput → Membership → Bool
  is_recipient input m =
      m.team_id == input.team_id && (elim m.status [ accepted ↦ true | pending ↦ false ])

  abbrev pub is_enabled : NotifyInput → Store → ℕ → Bool
  is_enabled input store user = elim (store.preference user input.type) [
    | none ↦ default_enabled input.type
    | some choice ↦ choice
  ]

  -- The row has this dedup key.
  unfoldable pub has_key : NotifyInput → ℕ → Sent → Bool
  has_key input target row =
      type_index row.input.type == type_index input.type
      && (row.target == target
          && (row.input.entity_id == input.entity_id
              && same_id row.input.incident_id input.incident_id))

  -- `insert ... on conflict (dedup_key) do nothing`.
  abbrev pub insert_sent : NotifyInput → ℕ → List Sent → List Sent
  insert_sent input target rows =
      if exists (has_key input target) rows
      then rows
      else rows ++ record { target = target; input = input } ∷ []

  abbrev pub count_mail : Bool → NotifyResult → NotifyResult
  count_mail true r = record r { emails_sent = suc r.emails_sent }
  count_mail false r = record r { emails_failed = suc r.emails_failed }

  -- One turn of the loop over the recipients.
  unfoldable pub notify_user :
      (can_mail : ℕ → Bool) → NotifyInput → ℕ → Store × NotifyResult → Store × NotifyResult
  notify_user can_mail input user (store, r) =
      if is_enabled input store user
      then (if exists (has_key input user) store.notifications
          then (store, record r { deduped = suc r.deduped })
          else (
            record store { notifications = insert_sent input user store.notifications },
            count_mail (can_mail user) (record r { inserted = suc r.inserted }),
          ))
      else (store, r)

  unfoldable pub notify_users :
      (can_mail : ℕ → Bool)
      → NotifyInput
      → List Membership
      → Store × NotifyResult
      → Store × NotifyResult
  unfolding notify_user
  notify_users can_mail input [] s = s
  notify_users can_mail input (m ∷ ms) s =
      notify_users can_mail input ms (notify_user can_mail input m.user_id s)

  -- `team_id = $1 and active = true and $2 = any(events)`.
  abbrev pub is_subscribed : NotifyInput → WebhookRow → Bool
  is_subscribed input w =
      w.team_id == input.team_id
      && (w.active && exists (λ t. type_index t == type_index input.type) w.events)

  unfoldable pub queue_webhook : NotifyInput → ℕ → Store × NotifyResult → Store × NotifyResult
  queue_webhook input webhook (store, r) =
      if exists (has_key input webhook) store.deliveries then (store, r) else (
        record store { deliveries = insert_sent input webhook store.deliveries },
        record r { outbox_queued = suc r.outbox_queued },
      )

  unfoldable pub queue_webhooks :
      NotifyInput → List WebhookRow → Store × NotifyResult → Store × NotifyResult
  unfolding queue_webhook
  queue_webhooks input [] s = s
  queue_webhooks input (w ∷ ws) s = queue_webhooks input ws (queue_webhook input w.id s)

  abbrev pub no_result : (recipients : ℕ) → NotifyResult
  no_result n = record {
    recipients = n;
    inserted = 0;
    deduped = 0;
    emails_sent = 0;
    emails_failed = 0;
    outbox_queued = 0;
  }

  unfoldable pub notify : (can_mail : ℕ → Bool) → NotifyInput → Store → Store × NotifyResult
  unfolding notify_users queue_webhooks
  notify can_mail input store =
      let rows = select (is_recipient input) store.memberships in
      let hooks = select (is_subscribed input) store.webhooks in
      queue_webhooks input hooks (notify_users can_mail input rows (store, no_result (length rows)))
