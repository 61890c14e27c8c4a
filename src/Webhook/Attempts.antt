-- ===== src/Webhook/Attempts.antt =====
-- How often a delivery is tried: at most five times, except for a test delivery.
use Prim.Native.Nat.add
use mathlib.Core.Path.{subst}
use scan_pal.Common.{
  ℕ, ◌+◌, ◌≤◌, ◌<◌, ◌≡◌, refl, Option, none, some, List, [], ◌∷◌, true, false, arith, ◌⊎◌, ◌∙◌, ap,
  sym, str_eq, length,
}
use scan_pal.Webhook.Outbox.{
  ok, failed, rejected, disabled, DeliveryRow, WebhookRow, Outbox, max_attempts,
}
use scan_pal.Webhook.Deliver.{World, DeliveryOutcome, is_test, attempt, deliver_one}

abbrev pub IsTerminal : DeliveryRow → Type 0
IsTerminal d = (d.status ≡ ok) ⊎ (d.status ≡ rejected) ⊎ (d.status ≡ disabled)

-- A stored delivery with status ok, rejected or disabled, whose webhook exists, leaves the outbox
-- as it is when it is delivered again.
pub deliver_one-terminal :
    (world : World) (id : ℕ) (box : Outbox) (d : DeliveryRow) (w : WebhookRow)
    → box.deliveries id ≡ some d
    → box.webhooks d.webhook_id ≡ some w
    → IsTerminal d
    → (deliver_one world id box).0 ≡ box
unfolding deliver_one
deliver_one-terminal world id box d w e f t = ground arith

abbrev pub IsStored {ℓ} : {A : Type ℓ} → Option A → Type 0
IsStored none = ⊥
IsStored (some a) = Unit

-- After an attempt a delivery that is no test is done, or it has failed with one attempt more,
-- and fewer than five. Its identity stays.
abbrev pub Advances : DeliveryRow → Option DeliveryRow → Type 0
Advances d none = ⊥
Advances d (some d') =
    (d'.id ≡ d.id)
    × (d'.webhook_id ≡ d.webhook_id)
    × (d'.event ≡ d.event)
    × (IsTerminal d'
        ⊎ ((d'.status ≡ failed) × (d'.attempts ≡ d.attempts + 1) × (d'.attempts < max_attempts)))

-- A delivery that is no test, of a stored webhook, that is done or was tried at least `n` times.
pub record WasTried (n id : ℕ) (box : Outbox) : Type 0 where
  pub row : DeliveryRow
  pub hook : WebhookRow
  pub stored : box.deliveries id ≡ some row
  pub same : row.id ≡ id
  pub joined : box.webhooks row.webhook_id ≡ some hook
  pub regular : is_test row ≡ false
  pub progress : IsTerminal row ⊎ ((n ≤ row.attempts) × (row.attempts < max_attempts))

-- The outbox after deliveries of the same row in the worlds of a list, one after the other.
unfoldable pub deliver_in : List World → ℕ → Outbox → Outbox
deliver_in [] id box = box
deliver_in (world ∷ worlds) id box = deliver_in worlds id (deliver_one world id box).0

-- A failed attempt at a test delivery: it stays planned where it was.
abbrev pub StaysPlanned : DeliveryRow → Option DeliveryRow → Type 0
StaysPlanned d none = ⊥
StaysPlanned d (some d') =
    (d'.id ≡ d.id)
    × (d'.webhook_id ≡ d.webhook_id)
    × (d'.event ≡ d.event)
    × (d'.status ≡ failed)
    × (d'.attempts ≡ d.attempts + 1)
    × (d'.next_attempt_at ≡ d.next_attempt_at)

deliver_one-test :
    (world : World) (box : Outbox) (d : DeliveryRow) (w : WebhookRow)
    → box.deliveries d.id ≡ some d
    → box.webhooks d.webhook_id ≡ some w
    → is_test d ≡ true
    → (deliver_one world d.id box).1 ≡ DeliveryOutcome.failed
    → StaysPlanned d ((deliver_one world d.id box).0.deliveries d.id)
      × ((deliver_one world d.id box).0.webhooks ≡ box.webhooks)
unfolding deliver_one attempt
deliver_one-test world box d w e f t h = ground arith

-- Each of the attempts in the worlds of the list fails.
abbrev pub AllFail : List World → ℕ → Outbox → Type 0
AllFail [] id box = Unit
AllFail (world ∷ worlds) id box =
    ((deliver_one world id box).1 ≡ DeliveryOutcome.failed)
    × AllFail worlds id (deliver_one world id box).0

StaysPlanned-some :
    (d : DeliveryRow) (o : Option DeliveryRow)
    → StaysPlanned d o
    → (d' : DeliveryRow) × (o ≡ some d') × StaysPlanned d (some d')
StaysPlanned-some d none h = absurd h
StaysPlanned-some d (some d') h = (d', refl, h)

deliver_one-test_at :
    (world : World) (id : ℕ) (box : Outbox) (d : DeliveryRow) (w : WebhookRow)
    → d.id ≡ id
    → box.deliveries id ≡ some d
    → box.webhooks d.webhook_id ≡ some w
    → is_test d ≡ true
    → (deliver_one world id box).1 ≡ DeliveryOutcome.failed
    → (d' : DeliveryRow) × ((deliver_one world id box).0.deliveries id ≡ some d')
      × StaysPlanned d (some d')
      × ((deliver_one world id box).0.webhooks d'.webhook_id ≡ some w)
deliver_one-test_at world id box d w s e f t h =
    let fails = subst (λ k. (deliver_one world k box).1 ≡ DeliveryOutcome.failed) (sym s) h in
    let (stays, hooks) = deliver_one-test world box d w (ap box.deliveries s ∙ e) f t fails in
    let (d', at, p) = StaysPlanned-some d ((deliver_one world d.id box).0.deliveries d.id) stays in
    (
      d',
      subst (λ k. (deliver_one world k box).0.deliveries k ≡ some d') s at,
      p,
      subst (λ k. (deliver_one world k box).0.webhooks d'.webhook_id ≡ some w) s
          (ap (λ hs. hs d'.webhook_id) hooks ∙ ap box.webhooks p.1 ∙ f),
    )

-- A failed test delivery has no last attempt: after any number of further failed attempts it is
-- still failed with the same planned time, and its count of attempts has grown by their number.
pub deliver_in-test :
    (worlds : List World) (id : ℕ) (box : Outbox) (d : DeliveryRow) (w : WebhookRow)
    → d.id ≡ id
    → box.deliveries id ≡ some d
    → box.webhooks d.webhook_id ≡ some w
    → is_test d ≡ true
    → d.status ≡ failed
    → AllFail worlds id box
    → (d' : DeliveryRow) × ((deliver_in worlds id box).deliveries id ≡ some d')
      × (d'.attempts ≡ length worlds + d.attempts)
      × (d'.next_attempt_at ≡ d.next_attempt_at)
      × (d'.status ≡ failed)
unfolding deliver_in
deliver_in-test [] id box d w s e f t st h = (d, e, omega arith, refl, st)
deliver_in-test (world ∷ worlds) id box d w s e f t st (h, hs) =
    let (row, at, (same, hook_id, event, status, attempts, planned), hooked) =
      deliver_one-test_at world id box d w s e f t h in
    let (end, there, counts, time, still) =
      deliver_in-test worlds id (deliver_one world id box).0 row w (same ∙ s) at hooked
        (ap (λ x. str_eq x "test") event ∙ t) status hs in
    (end, there, omega arith, time ∙ planned, still)
