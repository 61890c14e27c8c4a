-- ===== src/Notify/Once.antt =====
-- A call of the hub that is made again sends nothing again: packages/notify/src/index.ts.
use scan_pal.Common.{
  ℕ, ◌≡◌, refl, ap, ◌∙◌, arith, Option, none, some, List, [], ◌∷◌, Bool, true, if◌then◌else◌,
  length, select, exists, All, exists-append, exists-last, Bool-cases, inl, inr, map, ==_self,
}
use scan_pal.Team.Store.{Membership}
use scan_pal.Notify.Hub.{
  type_index, same_id, NotifyInput, Sent, Store, WebhookRow, NotifyResult, is_recipient, is_enabled,
  is_subscribed, has_key, insert_sent, notify_user, notify_users, queue_webhook, queue_webhooks,
  no_result, notify,
}
use scan_pal.Notify.Balance.{wanting, notify-balance}

same_id_self : (o : Option ℕ) → same_id o o ≡ true
same_id_self none = refl
same_id_self (some a) = ==_self a

module _ {P : Type 0} (input : NotifyInput P) where
  -- The rows for these targets, each inserted unless its key is there.
  unfoldable pub insert_all : List ℕ → List (Sent P) → List (Sent P)
  insert_all [] rows = rows
  insert_all (t ∷ ts) rows = insert_all ts (insert_sent P input t rows)

  has_key_self : (t : ℕ) → has_key P input t (record { target = t; input = input }) ≡ true
  unfolding has_key
  has_key_self t =
      let at = ==_self (type_index input.type) in
      let target = ==_self t in
      let entity = ==_self input.entity_id in
      rw (at, target, entity) (same_id_self input.incident_id)

  abbrev IsThere : List (Sent P) → ℕ → Type 0
  IsThere rows t = exists (has_key P input t) rows ≡ true

  insert_sent-IsThere : (t : ℕ) (rows : List (Sent P)) → IsThere (insert_sent P input t rows) t
  insert_sent-IsThere t rows = elim (Bool-cases (exists (has_key P input t) rows)) [
    | inl there ↦ rw there there
    | inr absent ↦ rw absent (exists-last (has_key P input t) rows _ (has_key_self t))
  ]

  insert_sent-keeps :
      (t u : ℕ) (rows : List (Sent P)) → IsThere rows u → IsThere (insert_sent P input t rows) u
  insert_sent-keeps t u rows h = elim (Bool-cases (exists (has_key P input t) rows)) [
    | inl there ↦ rw there h
    | inr absent ↦ rw (absent, exists-append, h) refl
  ]

  insert_all-keeps :
      (ts : List ℕ) (u : ℕ) (rows : List (Sent P)) → IsThere rows u → IsThere (insert_all ts rows) u
  unfolding insert_all
  insert_all-keeps [] u rows h = h
  insert_all-keeps (t ∷ ts) u rows h =
      insert_all-keeps ts u (insert_sent P input t rows) (insert_sent-keeps t u rows h)

  pub insert_all-IsThere :
      (ts : List ℕ) (rows : List (Sent P)) → All (IsThere (insert_all ts rows)) ts
  unfolding insert_all
  insert_all-IsThere [] rows = tt
  insert_all-IsThere (t ∷ ts) rows =
      let next = insert_sent P input t rows in
      (insert_all-keeps ts t next (insert_sent-IsThere t rows), insert_all-IsThere ts next)

  pub insert_all_there :
      (ts : List ℕ) (rows : List (Sent P)) → All (IsThere rows) ts → insert_all ts rows ≡ rows
  unfolding insert_all
  insert_all_there [] rows a = refl
  insert_all_there (t ∷ ts) rows (h, a) = rw h (insert_all_there ts rows a)

  pub insert_all_idem :
      (ts : List ℕ) (rows : List (Sent P)) → insert_all ts (insert_all ts rows) ≡ insert_all ts rows
  insert_all_idem ts rows = insert_all_there ts (insert_all ts rows) (insert_all-IsThere ts rows)

  -- The users who want the notification, and the webhooks.
  abbrev pub users_of : Store P → List ℕ
  users_of store =
      map (λ (m : Membership). m.user_id)
        (select (wanting input store) (select (is_recipient P input) store.memberships))

  abbrev pub hooks_of : Store P → List ℕ
  hooks_of store = map (λ (w : WebhookRow P). w.id) (select (is_subscribed P input) store.webhooks)

  notify_user_lem :
      (can_mail : ℕ → Bool) (m : Membership) (store : Store P) (rows : List (Sent P))
      (r : NotifyResult P)
      → (notify_user P can_mail input m.user_id (record store { notifications = rows }, r)).0
        ≡ record store {
          notifications =
              (if wanting input store m then insert_sent P input m.user_id rows else rows);
        }
  unfolding notify_user
  notify_user_lem can_mail m store rows r = elim (Bool-cases (is_enabled P input store m.user_id)) [
    | inr off ↦ rw off refl
    | inl on ↦ elim (Bool-cases (exists (has_key P input m.user_id) rows)) [
      | inl there ↦ rw (on, there) refl
      | inr absent ↦ rw (on, absent) refl
    ]
  ]

  notify_users_lem :
      (can_mail : ℕ → Bool) (ms : List Membership) (store : Store P) (rows : List (Sent P))
      → (r : NotifyResult P)
      → (notify_users P can_mail input ms (record store { notifications = rows }, r)).0
        ≡ record store {
          notifications =
              insert_all
                (map (λ (m : Membership). m.user_id) (select (wanting input store) ms))
                rows;
        }
  unfolding notify_users insert_all
  notify_users_lem can_mail [] store rows r = refl
  notify_users_lem can_mail (m ∷ ms) store rows r =
      let s = notify_user P can_mail input m.user_id (record store { notifications = rows }, r) in
      ap (λ (q : Store P). (notify_users P can_mail input ms (q, s.1)).0)
        (notify_user_lem can_mail m store rows r)
      ∙ elim (Bool-cases (wanting input store m)) [
        | inr off ↦ rw off (notify_users_lem can_mail ms store rows _)
        | inl on ↦ rw on (notify_users_lem can_mail ms store (insert_sent P input m.user_id rows) _)
      ]

  queue_webhook_lem :
      (webhook : ℕ) (store : Store P) (rows : List (Sent P)) (r : NotifyResult P)
      → (queue_webhook P input webhook (record store { deliveries = rows }, r)).0
        ≡ record store { deliveries = insert_sent P input webhook rows }
  unfolding queue_webhook
  queue_webhook_lem webhook store rows r =
      elim (Bool-cases (exists (has_key P input webhook) rows)) [
        | inl there ↦ rw there refl
        | inr absent ↦ rw absent refl
      ]

  queue_webhooks_lem :
      (ws : List (WebhookRow P)) (store : Store P) (rows : List (Sent P)) (r : NotifyResult P)
      → (queue_webhooks P input ws (record store { deliveries = rows }, r)).0
        ≡ record store { deliveries = insert_all (map (λ (w : WebhookRow P). w.id) ws) rows }
  unfolding queue_webhooks insert_all
  queue_webhooks_lem [] store rows r = refl
  queue_webhooks_lem (w ∷ ws) store rows r =
      let s = queue_webhook P input w.id (record store { deliveries = rows }, r) in
      ap (λ (q : Store P). (queue_webhooks P input ws (q, s.1)).0)
        (queue_webhook_lem w.id store rows r)
      ∙ queue_webhooks_lem ws store (insert_sent P input w.id rows) s.1

  -- The store after a call.
  abbrev pub sent_to : Store P → Store P
  sent_to store = record store {
    notifications = insert_all (users_of store) store.notifications;
    deliveries = insert_all (hooks_of store) store.deliveries;
  }

  pub notify-sent_to :
      (can_mail : ℕ → Bool) (store : Store P) → (notify P can_mail input store).0 ≡ sent_to store
  unfolding notify
  notify-sent_to can_mail store =
      let rows = select (is_recipient P input) store.memberships in
      let hooks = select (is_subscribed P input) store.webhooks in
      let begun : Store P × NotifyResult P = (store, no_result P (length rows)) in
      let after = notify_users P can_mail input rows begun in
      let noted : after.0
          ≡ record store { notifications = insert_all (users_of store) store.notifications } =
        notify_users_lem can_mail rows store store.notifications begun.1 in
      queue_webhooks_lem hooks after.0 after.0.deliveries after.1
      ∙ ap (λ (s : Store P). record s { deliveries = insert_all (hooks_of store) s.deliveries })
          noted

-- After a call of the hub every recipient who wants the event has its notification and every
-- subscribed webhook its row of the outbox, and a second call with the same input, whatever mails
-- can be sent, leaves all tables as they are and sends, inserts and queues nothing.
pub notify-notify :
    {P : Type 0} (can_mail can_mail_again : ℕ → Bool) (input : NotifyInput P) (store : Store P)
    → let after = (notify P can_mail input store).0 in
      let (again, r) = notify P can_mail_again input after in
      All (λ u. exists (has_key P input u) after.notifications ≡ true) (users_of input store)
      × All (λ w. exists (has_key P input w) after.deliveries ≡ true) (hooks_of input store)
      × (again ≡ after)
      × (r.inserted ≡ 0)
      × (r.emails_sent ≡ 0)
      × (r.emails_failed ≡ 0)
      × (r.outbox_queued ≡ 0)
notify-notify {P} can_mail can_mail_again input store =
    let first = notify-sent_to input can_mail store in
    let users = users_of input store in
    let hooks = hooks_of input store in
    let noted = insert_all input users store.notifications in
    let queued = insert_all input hooks store.deliveries in
    let same : (notify P can_mail_again input (sent_to input store)).0 ≡ sent_to input store =
      notify-sent_to input can_mail_again (sent_to input store)
      ∙ ap (λ ns. record store { notifications = ns; deliveries = insert_all input hooks queued })
          (insert_all_idem input users store.notifications)
      ∙ ap (λ ds. record store { notifications = noted; deliveries = ds })
          (insert_all_idem input hooks store.deliveries) in
    let (_, _, kept, mails, outbox) = notify-balance can_mail_again input (sent_to input store) in
    let notes = ap (λ (s : Store P). length s.notifications) same in
    let rows = ap (λ (s : Store P). length s.deliveries) same in
    rw first (
      insert_all-IsThere input users store.notifications,
      insert_all-IsThere input hooks store.deliveries,
      same,
      omega (arith, kept, notes),
      omega (arith, kept, notes, mails),
      omega (arith, kept, notes, mails),
      omega (arith, outbox, rows),
    )
