-- ===== src/Notify/Again.antt =====
-- Several events given to the hub, as the aggregator of a scan gives them, and given again by a retry:
-- packages/notify/src/index.ts, apps/worker/src/queues/aggregate.ts.
use mathlib.Core.Path.{subst}
use scan_pal.Common.{
  ℕ, ◌≡◌, ◌⊎◌, inl, inr, refl, sym, ap, ◌∙◌, List, [], ◌∷◌, Bool, true, All, exists, exists-append,
  Bool-cases,
}
use scan_pal.Notify.Hub.{NotifyInput, Sent, Store, has_key, insert_sent, notify}
use scan_pal.Notify.Once.{
  insert_all, insert_all_there, insert_all-IsThere, users_of, hooks_of, sent_to, notify-sent_to,
}

module _ {P : Type 0} where
  -- The calls of `notify`, one after the other.
  abbrev pub notify_all : (can_mail : ℕ → Bool) → List (NotifyInput P) → Store P → Store P
  notify_all can_mail [] store = store
  notify_all can_mail (m ∷ ms) store = notify_all can_mail ms (notify P can_mail m store).0

  -- The same event, but for the payload.
  abbrev pub IsSameEvent : NotifyInput P → NotifyInput P → Type 0
  IsSameEvent m n = record m { payload = n.payload } ≡ n

  abbrev pub IsAmong : List (NotifyInput P) → NotifyInput P → Type 0
  IsAmong [] m = ⊥
  IsAmong (n ∷ ns) m = IsSameEvent m n ⊎ IsAmong ns m

  -- All who are to hear of the event have their rows.
  abbrev IsFull : NotifyInput P → Store P → Type 0
  IsFull m store =
      All (λ u. exists (has_key P m u) store.notifications ≡ true) (users_of m store)
      × All (λ w. exists (has_key P m w) store.deliveries ≡ true) (hooks_of m store)

  exists-insert_all :
      (p : Sent P → Bool) (m : NotifyInput P) (ts : List ℕ) (rows : List (Sent P))
      → exists p rows ≡ true
      → exists p (insert_all m ts rows) ≡ true
  unfolding insert_all
  exists-insert_all p m [] rows h = h
  exists-insert_all p m (t ∷ ts) rows h =
      exists-insert_all p m ts (insert_sent P m t rows)
        (elim (Bool-cases (exists (has_key P m t) rows)) [
          | inl there ↦ rw there h
          | inr absent ↦ rw (absent, exists-append, h) refl
        ])

  All-insert_all :
      (n m : NotifyInput P) (us ts : List ℕ) (rows : List (Sent P))
      → All (λ u. exists (has_key P n u) rows ≡ true) us
      → All (λ u. exists (has_key P n u) (insert_all m ts rows) ≡ true) us
  All-insert_all n m [] ts rows a = tt
  All-insert_all n m (u ∷ us) ts rows (h, a) =
      (exists-insert_all (has_key P n u) m ts rows h, All-insert_all n m us ts rows a)

  IsFull-sent_to :
      (n m : NotifyInput P) (store : Store P) → IsFull n store → IsFull n (sent_to m store)
  IsFull-sent_to n m store (a, b) = (
    All-insert_all n m (users_of n store) (users_of m store) store.notifications a,
    All-insert_all n m (hooks_of n store) (hooks_of m store) store.deliveries b,
  )

  IsFull-notify :
      (can_mail : ℕ → Bool) (n m : NotifyInput P) (store : Store P)
      → IsFull n store
      → IsFull n (notify P can_mail m store).0
  IsFull-notify can_mail n m store f =
      subst (IsFull n) (sym (notify-sent_to m can_mail store)) (IsFull-sent_to n m store f)

  IsFull-notify_all :
      (can_mail : ℕ → Bool) (n : NotifyInput P) (ms : List (NotifyInput P)) (store : Store P)
      → IsFull n store
      → IsFull n (notify_all can_mail ms store)
  IsFull-notify_all can_mail n [] store f = f
  IsFull-notify_all can_mail n (m ∷ ms) store f =
      IsFull-notify_all can_mail n ms (notify P can_mail m store).0
        (IsFull-notify can_mail n m store f)

  -- A full event leaves the store.
  notify_full :
      (can_mail : ℕ → Bool) (m : NotifyInput P) (store : Store P)
      → IsFull m store
      → (notify P can_mail m store).0 ≡ store
  notify_full can_mail m store (a, b) =
      notify-sent_to m can_mail store
      ∙ ap
          (λ ns. record store {
            notifications = ns;
            deliveries = insert_all m (hooks_of m store) store.deliveries;
          })
          (insert_all_there m (users_of m store) store.notifications a)
      ∙ ap (λ ds. record store { deliveries = ds })
          (insert_all_there m (hooks_of m store) store.deliveries b)

  notify-IsFull :
      (can_mail : ℕ → Bool) (m : NotifyInput P) (store : Store P)
      → IsFull m (notify P can_mail m store).0
  notify-IsFull can_mail m store = subst (IsFull m) (sym (notify-sent_to m can_mail store)) (
    insert_all-IsThere m (users_of m store) store.notifications,
    insert_all-IsThere m (hooks_of m store) store.deliveries,
  )

  IsFull-IsSameEvent :
      (m n : NotifyInput P) (store : Store P) → IsSameEvent m n → IsFull n store → IsFull m store
  unfolding has_key
  IsFull-IsSameEvent m n store e f = subst (λ q. IsFull q store) (sym e) f

  IsAmong-IsFull :
      (can_mail : ℕ → Bool) (ns : List (NotifyInput P)) (m : NotifyInput P) (store : Store P)
      → IsAmong ns m
      → IsFull m (notify_all can_mail ns store)
  IsAmong-IsFull can_mail [] m store e = absurd e
  IsAmong-IsFull can_mail (n ∷ ns) m store (inl e) =
      IsFull-IsSameEvent m n (notify_all can_mail (n ∷ ns) store) e (
        IsFull-notify_all can_mail n ns (notify P can_mail n store).0
          (notify-IsFull can_mail n store))
  IsAmong-IsFull can_mail (n ∷ ns) m store (inr e) =
      IsAmong-IsFull can_mail ns m (notify P can_mail n store).0 e

  notify_all_full :
      (can_mail : ℕ → Bool) (ms : List (NotifyInput P)) (store : Store P)
      → All (λ m. IsFull m store) ms
      → notify_all can_mail ms store ≡ store
  notify_all_full can_mail [] store a = refl
  notify_all_full can_mail (m ∷ ms) store (f, a) =
      ap (notify_all can_mail ms) (notify_full can_mail m store f)
      ∙ notify_all_full can_mail ms store a

  All-IsFull :
      (can_mail : ℕ → Bool) (ns ms : List (NotifyInput P)) (store : Store P)
      → All (IsAmong ns) ms
      → All (λ m. IsFull m (notify_all can_mail ns store)) ms
  All-IsFull can_mail ns [] store a = tt
  All-IsFull can_mail ns (m ∷ ms) store (e, a) =
      (IsAmong-IsFull can_mail ns m store e, All-IsFull can_mail ns ms store a)

-- When the hub is given several events one after the other and afterwards, as by a retry, any
-- events that are each one of the first but for the payload, the second series changes no table,
-- whatever mails can be sent.
pub notify_all-notify_all :
    {P : Type 0} (can_mail can_mail_again : ℕ → Bool) (first again : List (NotifyInput P))
    (store : Store P)
    → All (IsAmong first) again
    → notify_all can_mail_again again (notify_all can_mail first store)
      ≡ notify_all can_mail first store
notify_all-notify_all can_mail can_mail_again first again store a =
    notify_all_full can_mail_again again (notify_all can_mail first store)
      (All-IsFull can_mail first again store a)
