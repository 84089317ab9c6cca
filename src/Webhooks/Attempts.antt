-- ===== src/Webhooks/Attempts.antt =====
-- The number of attempts of a delivery (packages/domain/webhooks/src/delivery.service.ts and
-- apps/worker/src/webhooks/webhook-dispatcher.ts).
use alice_uprm.Prelude.{
  ℕ, ◌+◌, ◌≤◌, ◌<◌, ◌≡◌, refl, ◌⊎◌, inl, inr, Bool, true, false, List, [], ◌∷◌, arith,
  if◌then◌else◌, Bool-cases, Option-cases, All, All-append,
}
use alice_uprm.Prelude.Rows.{update_where, any}
use alice_uprm.Prelude.Keyed.{
  by_id, HasDistinctIds, HasIdsBelow, HasIdsBelow-mono, HasDistinctIds-append, update_where-ids,
  update_where-distinct,
}
use alice_uprm.Webhooks.Types.{
  event_type_eq, OutboundWebhookEvent, OutboundWebhookEndpoint, DeliveryStatus, pending, retrying,
  delivered, dead_letter, status_eq, DeliveryRecord, Deliveries, delivery_id,
}
use alice_uprm.Webhooks.Delivery.{
  delivery_row, insert_row, enqueue_for_endpoints, is_unclaimed, as_delivering, claim_row,
  replay_row, replay_delivery, is_replayable,
}

abbrev pub is_settled : DeliveryStatus → Bool
is_settled delivered = true
is_settled dead_letter = true
is_settled _ = false

-- Six attempts at most, and five where another one may follow.
abbrev pub IsWithin : DeliveryRecord → Type 0
IsWithin d = d.attempt_count ≤ (if is_settled d.status then 6 else 5)

pub record IsBounded (s : Deliveries) : Type 0 where
  pub distinct : HasDistinctIds delivery_id s.rows
  pub below : HasIdsBelow delivery_id s.next_id s.rows
  pub within : All IsWithin s.rows

pub insert_row-IsBounded :
    (row : ℕ → DeliveryRecord) (s : Deliveries)
    → ((n : ℕ) → (row n).id ≡ n)
    → ((n : ℕ) → IsWithin (row n))
    → IsBounded s
    → IsBounded (insert_row row s)
unfolding insert_row
insert_row-IsBounded row s ids fresh h = record {
  distinct =
      HasDistinctIds-append delivery_id s.next_id (row s.next_id) s.rows (ids s.next_id) h.below
        h.distinct;
  below =
      All-append (λ d. d.id < s.next_id + 1) s.rows (row s.next_id ∷ [])
        (HasIdsBelow-mono delivery_id s.next_id (s.next_id + 1) s.rows (omega arith) h.below)
        (omega (arith, ids s.next_id), tt);
  within = All-append IsWithin s.rows (row s.next_id ∷ []) h.within (fresh s.next_id, tt);
}

pub enqueue_for_endpoints-IsBounded :
    (now : ℕ) (event : OutboundWebhookEvent) (es : List OutboundWebhookEndpoint) (s : Deliveries)
    → IsBounded s
    → IsBounded (enqueue_for_endpoints now event es s).1
unfolding enqueue_for_endpoints delivery_row
enqueue_for_endpoints-IsBounded now event [] s h = h
enqueue_for_endpoints-IsBounded now event (e ∷ es) s h =
    enqueue_for_endpoints-IsBounded now event es _
      (elim (Bool-cases (any (event_type_eq event.event_type) e.event_types)) [
        | inl subscribed ↦
            rw subscribed
              (insert_row-IsBounded (λ id. delivery_row id now event e) s fresh_id fresh h)
        | inr other ↦ rw other h
      ])
  where
    fresh_id : (n : ℕ) → (delivery_row n now event e).id ≡ n
    fresh_id n = refl

    fresh : (n : ℕ) → IsWithin (delivery_row n now event e)
    fresh n = omega arith

pub replay_delivery-IsBounded :
    (now id : ℕ) (s : Deliveries) → IsBounded s → IsBounded (replay_delivery now id s).1
unfolding replay_delivery replay_row
replay_delivery-IsBounded now id s h = elim (Option-cases (by_id delivery_id id s.rows)) [
  | inl absent ↦ rw (absent, replay_delivery) h
  | inr (d, found) ↦ elim (Bool-cases (is_replayable d.status)) [
    | inr no_replay ↦ rw (found, no_replay, replay_delivery) h
    | inl yes_replay ↦
        rw (found, yes_replay, replay_delivery)
          (insert_row-IsBounded (replay_row now d) s (λ n. refl) (λ n. omega arith) h)
  ]
]

All-update :
    (p : DeliveryRecord → Bool) (f : DeliveryRecord → DeliveryRecord) (xs : List DeliveryRecord)
    → ((d : DeliveryRecord) → IsWithin d → p d ≡ true → IsWithin (f d))
    → All IsWithin xs
    → All IsWithin (update_where p f xs)
All-update p f [] k h = tt
All-update p f (x ∷ xs) k h = (
  elim (Bool-cases (p x)) [ inl hit ↦ rw hit (k x h.0 hit) | inr miss ↦ rw miss h.0 ],
  All-update p f xs k h.1,
)

update-IsBounded :
    (p : DeliveryRecord → Bool) (f : DeliveryRecord → DeliveryRecord) (s : Deliveries)
    → ((d : DeliveryRecord) → (f d).id ≡ d.id)
    → ((d : DeliveryRecord) → IsWithin d → p d ≡ true → IsWithin (f d))
    → IsBounded s
    → IsBounded (record s { rows = update_where p f s.rows })
update-IsBounded p f s keeps k h = record {
  distinct = update_where-distinct delivery_id f keeps p s.rows h.distinct;
  below = update_where-ids delivery_id f keeps s.next_id p s.rows h.below;
  within = All-update p f s.rows k h.within;
}

pub claim_row-IsBounded :
    (row : DeliveryRecord) (s : Deliveries)
    → status_eq row.status pending ≡ true ⊎ status_eq row.status retrying ≡ true
    → IsBounded s
    → IsBounded (claim_row row s).1
unfolding claim_row is_unclaimed
claim_row-IsBounded row s open_row h =
    update-IsBounded (is_unclaimed row) as_delivering s (λ d. refl) keep h
  where
    keep :
        (d : DeliveryRecord) → IsWithin d → is_unclaimed row d ≡ true → IsWithin (as_delivering d)
    keep d w hit = ground (arith, open_row)
