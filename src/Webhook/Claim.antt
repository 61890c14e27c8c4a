-- ===== src/Webhook/Claim.antt =====
-- packages/notify/src/webhook-deliverer.ts, `deliverDue`: the claim of due rows and the round.
use scan_pal.Common.{
  ℕ, zero, suc, ◌+◌, ◌≤◌, ◌<◌, ◌≡◌, refl, Option, none, some, List, [], ◌∷◌, Bool, true, false, ap,
  ◌∙◌, ==_iff, Bool-cases, inl, inr, ◌&&◌, arith, leb, ◌==◌, select, take, modify, length, exists,
}
use scan_pal.Webhook.Outbox.{DeliveryStatus, DeliveryRow, Outbox, claim_lease_ms}
use scan_pal.Webhook.Deliver.{World, DeliveryOutcome, deliver_one}

-- `status in ('pending', 'failed')`.
abbrev pub is_open : DeliveryStatus → Bool
is_open DeliveryStatus.pending = true
is_open DeliveryStatus.failed = true
is_open _ = false

-- `next_attempt_at is null or next_attempt_at <= $1`.
abbrev pub is_planned_by : ℕ → Option ℕ → Bool
is_planned_by now none = true
is_planned_by now (some t) = leb t now

abbrev pub is_due_row : ℕ → Option DeliveryRow → Bool
is_due_row now none = false
is_due_row now (some d) = is_open d.status && is_planned_by now d.next_attempt_at

unfoldable pub is_due : ℕ → Outbox → ℕ → Bool
is_due now box id = is_due_row now (box.deliveries id)

unfoldable pub due_ids : ℕ → Outbox → List ℕ
unfolding is_due
due_ids now box = take 50 (select (is_due now box) box.delivery_ids)

-- `update webhook_deliveries set next_attempt_at = $2 where id = any($1)`.
unfoldable pub lease : ℕ → List ℕ → Outbox → Outbox
lease until [] box = box
lease until (id ∷ ids) box = record (lease until ids box) {
  deliveries =
      modify id (λ (d : DeliveryRow). record d { next_attempt_at = some until })
        (lease until ids box).deliveries;
}

-- The claiming transaction.
unfoldable pub claim : ℕ → Outbox → Outbox × List ℕ
unfolding due_ids
claim now box = let ids = due_ids now box in (lease (now + claim_lease_ms) ids box, ids)

pub record DeliverDueResult : Type 0 where
  pub attempted : ℕ
  pub delivered : ℕ
  pub rejected : ℕ
  pub failed : ℕ
  pub disabled : ℕ

abbrev pub tally : DeliveryOutcome → DeliverDueResult → DeliverDueResult
tally DeliveryOutcome.ok r = record r { attempted = r.attempted + 1; delivered = r.delivered + 1 }
tally (DeliveryOutcome.rejected reason) r = record r {
  attempted = r.attempted + 1;
  rejected = r.rejected + 1;
}
tally DeliveryOutcome.failed r = record r { attempted = r.attempted + 1; failed = r.failed + 1 }
tally DeliveryOutcome.disabled r = record r {
  attempted = r.attempted + 1;
  disabled = r.disabled + 1;
}
tally DeliveryOutcome.not_found r = record r { attempted = r.attempted + 1 }

-- The loop over the claimed rows; the world may change from one delivery to the next.
unfoldable pub deliver_each :
    (ℕ → World) → List ℕ → Outbox → DeliverDueResult → Outbox × DeliverDueResult
deliver_each world [] box r = (box, r)
deliver_each world (id ∷ ids) box r =
    let (box', outcome) = deliver_one (world id) id box in
    deliver_each world ids box' (tally outcome r)

unfoldable pub deliver_due : ℕ → (ℕ → World) → Outbox → Outbox × DeliverDueResult
deliver_due now world box =
    let (box', ids) = claim now box in
    deliver_each world ids box'
      (record { attempted = 0; delivered = 0; rejected = 0; failed = 0; disabled = 0 })

abbrev pub has_id : ℕ → List ℕ → Bool
has_id id ids = exists (λ (j : ℕ). j == id) ids

-- A leased row is planned for the end of the lease, if it is there.
abbrev IsLeased : ℕ → Option DeliveryRow → Type 0
IsLeased until none = Unit
IsLeased until (some d) = d.next_attempt_at ≡ some until

lease-IsLeased :
    (until id : ℕ) (ids : List ℕ) (box : Outbox)
    → has_id id ids ≡ true
    → IsLeased until ((lease until ids box).deliveries id)
unfolding lease
lease-IsLeased until id [] box h = absurd (ground arith)
lease-IsLeased until id (j ∷ ids) box h = ground (arith, lease-IsLeased until id ids box)

-- A leased row is not due before the end of the lease.
not_due_of_IsLeased :
    (until now : ℕ) (o : Option DeliveryRow)
    → now < until
    → IsLeased until o
    → is_due_row now o ≡ false
not_due_of_IsLeased until now none l h = refl
not_due_of_IsLeased until now (some d) l h = rw h (ground arith)

exists-take : (n id : ℕ) (ids : List ℕ) → has_id id ids ≡ false → has_id id (take n ids) ≡ false
exists-take zero id ids h = refl
exists-take (suc n) id [] h = refl
exists-take (suc n) id (j ∷ ids) h = ground (arith, exists-take n id ids (ground arith))

exists-select :
    (p : ℕ → Bool) (id : ℕ) (ids : List ℕ) → p id ≡ false → has_id id (select p ids) ≡ false
exists-select p id [] h = refl
exists-select p id (j ∷ ids) h = elim (Bool-cases (p j)) [
  | inr skipped ↦ rw skipped (exists-select p id ids h)
  | inl kept ↦ elim (Bool-cases (j == id)) [
    | inr other ↦ rw (kept, other) (exists-select p id ids h)
    | inl same ↦ absurd (ground (arith, ap p ((==_iff j id).0 same)))
  ]
]

-- A row that one round has claimed is not claimed by another round until the lease of 15 minutes
-- is over, as long as nothing has written the row since the claim.
pub claim-claim :
    (now later id : ℕ) (box box' : Outbox)
    → has_id id (claim now box).1 ≡ true
    → box'.deliveries id ≡ (claim now box).0.deliveries id
    → later < now + claim_lease_ms
    → has_id id (claim later box').1 ≡ false
unfolding claim is_due due_ids
claim-claim now later id box box' h same l =
    let until = now + claim_lease_ms in
    let leased = lease-IsLeased until id (due_ids now box) box h in
    let apart : is_due later box' id ≡ false =
      ap (is_due_row later) same ∙ not_due_of_IsLeased until later _ l leased in
    exists-take 50 id _ (exists-select (is_due later box') id box'.delivery_ids apart)

-- The five counters of a round.
abbrev pub accounted : DeliverDueResult → ℕ
accounted r = r.delivered + r.rejected + r.failed + r.disabled

tally-attempted :
    (o : DeliveryOutcome) (r : DeliverDueResult)
    → ((tally o r).attempted ≡ suc r.attempted)
      × (accounted (tally o r) ≤ suc (accounted r))
      × (accounted r ≤ accounted (tally o r))
tally-attempted o r = ground arith

deliver_each-counts :
    (world : ℕ → World) (ids : List ℕ) (box : Outbox) (r : DeliverDueResult)
    → accounted r ≤ r.attempted
    → ((deliver_each world ids box r).1.attempted ≡ length ids + r.attempted)
      × (accounted (deliver_each world ids box r).1 ≤ (deliver_each world ids box r).1.attempted)
unfolding deliver_each
deliver_each-counts world [] box r h = (omega arith, h)
deliver_each-counts world (id ∷ ids) box r h =
    let o = (deliver_one (world id) id box).1 in
    let ih =
      deliver_each-counts world ids (deliver_one (world id) id box).0 (tally o r)
        (omega (arith, tally-attempted o r)) in
    (omega (arith, ih.0, tally-attempted o r), ih.1)

length-take_le {ℓ} : {A : Type ℓ} (n : ℕ) (xs : List A) → length (take n xs) ≤ n
length-take_le zero xs = omega arith
length-take_le (suc n) [] = omega arith
length-take_le (suc n) (x ∷ xs) = omega (arith, length-take_le n xs)

due_ids-le : (now : ℕ) (box : Outbox) → length (due_ids now box) ≤ 50
unfolding due_ids
due_ids-le now box = length-take_le 50 (select (is_due now box) box.delivery_ids)

-- A round attempts as many rows as it has claimed, fifty at most, and never reports more results
-- than attempts.
pub deliver_due-counts :
    (now : ℕ) (world : ℕ → World) (box : Outbox)
    → ((deliver_due now world box).1.attempted ≡ length (claim now box).1)
      × ((deliver_due now world box).1.attempted ≤ 50)
      × (accounted (deliver_due now world box).1 ≤ (deliver_due now world box).1.attempted)
unfolding deliver_due claim
deliver_due-counts now world box =
    let counts =
      deliver_each-counts world (due_ids now box)
        (lease (now + claim_lease_ms) (due_ids now box) box)
        (record { attempted = 0; delivered = 0; rejected = 0; failed = 0; disabled = 0 })
        (omega arith) in
    (omega (arith, counts.0), omega (arith, counts.0, due_ids-le now box), counts.1)
