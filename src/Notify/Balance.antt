-- ===== src/Notify/Balance.antt =====
-- What a call of the hub counts, against the rows that it adds: packages/notify/src/index.ts.
use scan_pal.Common.{
  ℕ, ◌+◌, ◌≡◌, refl, ap, ◌∙◌, arith, Option, none, some, List, [], ◌∷◌, Bool, if◌then◌else◌, length,
  select, exists, count, length-snoc, count-select, Bool-cases, inl, inr,
}
use scan_pal.Team.Store.{Membership}
use scan_pal.Notify.Hub.{
  NotificationType, default_enabled, NotifyInput, Store, WebhookRow, NotifyResult, is_recipient,
  is_enabled, is_subscribed, has_key, notify_user, notify_users, queue_webhook, queue_webhooks,
  no_result, notify,
}

module _ {P : Type 0} (start : Store P) where
  -- Since the call began with `start`.
  abbrev IsBalanced : Store P × NotifyResult P → Type 0
  IsBalanced (store, r) =
      (length store.notifications ≡ length start.notifications + r.inserted)
      × (r.emails_sent + r.emails_failed ≡ r.inserted)
      × (length store.deliveries ≡ length start.deliveries + r.outbox_queued)

  notify_user-IsBalanced :
      (can_mail : ℕ → Bool) (input : NotifyInput P) (user : ℕ) (s : Store P × NotifyResult P)
      → IsBalanced s
      → IsBalanced (notify_user P can_mail input user s)
  unfolding notify_user
  notify_user-IsBalanced can_mail input user (store, r) (n, m, q) =
      elim (Bool-cases (is_enabled P input store user)) [
        | inr off ↦ rw off (n, m, q)
        | inl on ↦ elim (Bool-cases (exists (has_key P input user) store.notifications)) [
          | inl there ↦ rw (on, there) (n, m, q)
          | inr absent ↦
              let longer =
                length-snoc store.notifications (record { target = user; input = input }) in
              elim (Bool-cases (can_mail user)) [
                | inl sent ↦ rw (on, absent, sent) (omega (arith, longer, n), omega (arith, m), q)
                | inr failed ↦
                    rw (on, absent, failed) (omega (arith, longer, n), omega (arith, m), q)
              ]
        ]
      ]

  notify_users-IsBalanced :
      (can_mail : ℕ → Bool) (input : NotifyInput P) (ms : List Membership)
      (s : Store P × NotifyResult P)
      → IsBalanced s
      → IsBalanced (notify_users P can_mail input ms s)
  unfolding notify_users
  notify_users-IsBalanced can_mail input [] s b = b
  notify_users-IsBalanced can_mail input (m ∷ ms) s b =
      notify_users-IsBalanced can_mail input ms (notify_user P can_mail input m.user_id s)
        (notify_user-IsBalanced can_mail input m.user_id s b)

  queue_webhook-IsBalanced :
      (input : NotifyInput P) (webhook : ℕ) (s : Store P × NotifyResult P)
      → IsBalanced s
      → IsBalanced (queue_webhook P input webhook s)
  unfolding queue_webhook
  queue_webhook-IsBalanced input webhook (store, r) (n, m, q) =
      elim (Bool-cases (exists (has_key P input webhook) store.deliveries)) [
        | inl there ↦ rw there (n, m, q)
        | inr absent ↦
            let longer =
              length-snoc store.deliveries (record { target = webhook; input = input }) in
            rw absent (n, m, omega (arith, longer, q))
      ]

  queue_webhooks-IsBalanced :
      (input : NotifyInput P) (ws : List (WebhookRow P)) (s : Store P × NotifyResult P)
      → IsBalanced s
      → IsBalanced (queue_webhooks P input ws s)
  unfolding queue_webhooks
  queue_webhooks-IsBalanced input [] s b = b
  queue_webhooks-IsBalanced input (w ∷ ws) s b =
      queue_webhooks-IsBalanced input ws (queue_webhook P input w.id s)
        (queue_webhook-IsBalanced input w.id s b)

module _ {P : Type 0} where
  -- The recipients who want the notification.
  abbrev pub wanting : NotifyInput P → Store P → Membership → Bool
  wanting input store m = is_enabled P input store m.user_id

  -- Of the `n` recipients, `handled` had their turn and wanted it; the preferences are those of `start`.
  abbrev IsCounted : Store P → (n handled : ℕ) → Store P × NotifyResult P → Type 0
  IsCounted start n handled (store, r) =
      (store.preference ≡ start.preference)
      × (r.recipients ≡ n)
      × (r.inserted + r.deduped ≡ handled)

  notify_user-IsCounted :
      (can_mail : ℕ → Bool) (input : NotifyInput P) (user : ℕ) (store start : Store P)
      (r : NotifyResult P)
      → (n handled : ℕ) → IsCounted start n handled (store, r)
      → IsCounted start n
          ((if is_enabled P input store user then 1 else 0) + handled)
          (notify_user P can_mail input user (store, r))
  unfolding notify_user
  notify_user-IsCounted can_mail input user store start r n handled (p, a, b) =
      elim (Bool-cases (is_enabled P input store user)) [
        | inr off ↦ rw off (p, a, omega (arith, b))
        | inl on ↦ elim (Bool-cases (exists (has_key P input user) store.notifications)) [
          | inl there ↦ rw (on, there) (p, a, omega (arith, b))
          | inr absent ↦ elim (Bool-cases (can_mail user)) [
            | inl sent ↦ rw (on, absent, sent) (p, a, omega (arith, b))
            | inr failed ↦ rw (on, absent, failed) (p, a, omega (arith, b))
          ]
        ]
      ]

  notify_users-IsCounted :
      (can_mail : ℕ → Bool) (input : NotifyInput P) (ms : List Membership) (store start : Store P)
      → (r : NotifyResult P) (n handled : ℕ) → IsCounted start n handled (store, r)
      → IsCounted start n
          (count (wanting input start) ms + handled)
          (notify_users P can_mail input ms (store, r))
  unfolding notify_users
  notify_users-IsCounted can_mail input [] store start r n handled (p, a, b) =
      (p, a, omega (arith, b))
  notify_users-IsCounted can_mail input (m ∷ ms) store start r n handled c =
      let s = notify_user P can_mail input m.user_id (store, r) in
      let turn = notify_user-IsCounted can_mail input m.user_id store start r n handled c in
      let (p, a, b) = notify_users-IsCounted can_mail input ms s.0 start s.1 n _ turn in
      let same : is_enabled P input store m.user_id ≡ is_enabled P input start m.user_id =
        ap
          (λ (f : ℕ → NotificationType → Option Bool). elim (f m.user_id input.type) [
            | none ↦ default_enabled input.type
            | some choice ↦ choice
          ])
          c.0 in
      (p, a, rw (b, same) (omega arith))

  -- The webhooks leave what was counted.
  queue_webhook-IsCounted :
      (input : NotifyInput P) (webhook : ℕ) (s : Store P × NotifyResult P) (start : Store P)
      (n handled : ℕ)
      → IsCounted start n handled s
      → IsCounted start n handled (queue_webhook P input webhook s)
  unfolding queue_webhook
  queue_webhook-IsCounted input webhook (store, r) start n handled c =
      elim (Bool-cases (exists (has_key P input webhook) store.deliveries)) [
        | inl there ↦ rw there c
        | inr absent ↦ rw absent c
      ]

  queue_webhooks-IsCounted :
      (input : NotifyInput P) (ws : List (WebhookRow P)) (s : Store P × NotifyResult P)
      → (start : Store P) (n handled : ℕ) → IsCounted start n handled s
      → IsCounted start n handled (queue_webhooks P input ws s)
  unfolding queue_webhooks
  queue_webhooks-IsCounted input [] s start n handled c = c
  queue_webhooks-IsCounted input (w ∷ ws) s start n handled c =
      queue_webhooks-IsCounted input ws (queue_webhook P input w.id s) start n handled
        (queue_webhook-IsCounted input w.id s start n handled c)

-- A call counts the accepted members of the team as recipients, inserts or finds a row for each of them
-- who wants the event, adds as many notifications and outbox rows as it reports, and tries one mail for
-- each notification that it inserts.
pub notify-balance :
    {P : Type 0} (can_mail : ℕ → Bool) (input : NotifyInput P) (store : Store P)
    → let (after, r) = notify P can_mail input store in
      (r.recipients ≡ count (is_recipient P input) store.memberships)
      × (r.inserted + r.deduped
          ≡ count (wanting input store) (select (is_recipient P input) store.memberships))
      × (length after.notifications ≡ length store.notifications + r.inserted)
      × (r.emails_sent + r.emails_failed ≡ r.inserted)
      × (length after.deliveries ≡ length store.deliveries + r.outbox_queued)
unfolding notify
notify-balance {P} can_mail input store =
    let rows = select (is_recipient P input) store.memberships in
    let hooks = select (is_subscribed P input) store.webhooks in
    let begun : Store P × NotifyResult P = (store, no_result P (length rows)) in
    let sent = notify_users P can_mail input rows begun in
    let (kept, mails, queued) =
      queue_webhooks-IsBalanced store input hooks sent (
        notify_users-IsBalanced store can_mail input rows begun (omega arith, refl, omega arith)) in
    let (_, a, b) = queue_webhooks-IsCounted input hooks sent store _ _ (
      notify_users-IsCounted can_mail input rows store store begun.1 (length rows) 0
        (refl, refl, refl)) in
    (
      a ∙ count-select (is_recipient P input) store.memberships,
      omega (arith, b),
      kept,
      mails,
      queued,
    )
