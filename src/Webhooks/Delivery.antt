-- ===== src/Webhooks/Delivery.antt =====
-- `WebhookDeliveryService` of packages/domain/webhooks/src/delivery.service.ts. `now` is the clock of
-- the call.
use alice_uprm.Prelude.{
  ℕ, ◌+◌, Bool, true, false, ◌&&◌, ◌||◌, Option, none, some, List, [], ◌∷◌, ◌++◌, ltb, leb, ◌==◌,
  if◌then◌else◌, take,
}
use alice_uprm.Prelude.Text.{Text}
use alice_uprm.Prelude.Exec.{Error, ok, err, Exec}
use alice_uprm.Prelude.Rows.{filter, update_where, any}
use alice_uprm.Prelude.Keyed.{by_id, update_id}
use alice_uprm.Webhooks.Types.{
  event_type_eq, OutboundWebhookEvent, OutboundWebhookEndpoint, DeliveryStatus, pending, retrying,
  delivering, delivered, dead_letter, status_eq, DeliveryRecord, Deliveries, delivery_id,
}
use alice_uprm.Prelude.Sorting.{sort_by}

unfoldable pub delivery_row :
    ℕ → ℕ → OutboundWebhookEvent → OutboundWebhookEndpoint → DeliveryRecord
delivery_row id now event endpoint = record {
  id = id;
  tenant_id = event.tenant_id;
  event_type = event.event_type;
  endpoint_url = endpoint.url;
  signing_secret = endpoint.secret;
  payload = event;
  status = pending;
  attempt_count = 0;
  next_attempt_at = now;
  last_attempt_at = none;
  delivered_at = none;
  last_status_code = none;
  last_error = none;
  source_topic = event.source_topic;
  source_event_id = event.source_event_id;
  created_at = now;
}

unfoldable pub insert_row : (ℕ → DeliveryRecord) → Deliveries → Deliveries
insert_row row s = record { rows = s.rows ++ row s.next_id ∷ []; next_id = s.next_id + 1 }

unfoldable pub enqueue_for_endpoints :
    ℕ → OutboundWebhookEvent → List OutboundWebhookEndpoint → Exec Deliveries ℕ
enqueue_for_endpoints now event [] s = (ok 0, s)
enqueue_for_endpoints now event (e ∷ es) s =
    let subscribed = any (event_type_eq event.event_type) e.event_types in
    let s1 = if subscribed then insert_row (λ id. delivery_row id now event e) s else s in
    let (created, s2) = enqueue_for_endpoints now event es s1 in
    (elim created [ ok n ↦ ok (if subscribed then n + 1 else n) | err x ↦ err x ], s2)

unfoldable pub get_delivery : ℕ → Deliveries → Option DeliveryRecord
get_delivery id s = by_id delivery_id id s.rows

-- `webhookDelivery.update`, which throws where no row has the id.
unfoldable pub update_delivery :
    ℕ → (DeliveryRecord → DeliveryRecord) → Exec Deliveries DeliveryRecord
update_delivery id f s = elim (by_id delivery_id id s.rows) [
  | none ↦ (err Error.record_not_found, s)
  | some d ↦ (ok (f d), record s { rows = update_id delivery_id id f s.rows })
]

unfoldable pub as_delivered : ℕ → ℕ → DeliveryRecord → DeliveryRecord
as_delivered now code d = record d {
  status = delivered;
  attempt_count = d.attempt_count + 1;
  last_status_code = some code;
  last_attempt_at = some now;
  delivered_at = some now;
  last_error = none;
}

unfoldable pub mark_delivered : ℕ → ℕ → ℕ → Exec Deliveries DeliveryRecord
mark_delivered now id code = update_delivery id (as_delivered now code)

pub record FailureInput : Type 0 where
  pub status_code : Option ℕ
  pub error : Text
  pub retry_at : ℕ
  pub is_dead : Bool

unfoldable pub as_failed : ℕ → FailureInput → DeliveryRecord → DeliveryRecord
as_failed now input d = record d {
  status = if input.is_dead then dead_letter else retrying;
  attempt_count = d.attempt_count + 1;
  last_status_code = input.status_code;
  last_attempt_at = some now;
  next_attempt_at = input.retry_at;
  last_error = some (take 1000 input.error);
}

unfoldable pub mark_failure : ℕ → ℕ → FailureInput → Exec Deliveries DeliveryRecord
mark_failure now id input = update_delivery id (as_failed now input)

unfoldable pub is_due : ℕ → DeliveryRecord → Bool
is_due now d =
    (status_eq d.status pending || status_eq d.status retrying) && leb d.next_attempt_at now

-- `orderBy: [{ nextAttemptAt: 'asc' }, { createdAt: 'asc' }]`
abbrev pub is_before : DeliveryRecord → DeliveryRecord → Bool
is_before a b =
    ltb a.next_attempt_at b.next_attempt_at
    || a.next_attempt_at == b.next_attempt_at && leb a.created_at b.created_at

-- The `where` of the claim: the row still is as it was read.
unfoldable pub is_unclaimed : DeliveryRecord → DeliveryRecord → Bool
is_unclaimed row d =
    d.id == row.id && status_eq d.status row.status && d.next_attempt_at == row.next_attempt_at

abbrev pub as_delivering : DeliveryRecord → DeliveryRecord
as_delivering d = record d { status = delivering }

-- The `updateMany` of one round: whether it hit a row. Ids are unique, so it hits one at most.
unfoldable pub claim_row : DeliveryRecord → Deliveries → Bool × Deliveries
claim_row row s = (
  any (is_unclaimed row) s.rows,
  record s { rows = update_where (is_unclaimed row) as_delivering s.rows },
)

-- The loop. `others` is what other workers do before each round.
unfoldable pub claim_rows :
    (ℕ → Deliveries → Deliveries)
    → List DeliveryRecord
    → Deliveries
    → List DeliveryRecord × Deliveries
claim_rows others [] s = ([], s)
claim_rows others (row ∷ rows) s =
    let (hit, s1) = claim_row row (others row.id s) in
    let (claimed, s2) = claim_rows others rows s1 in
    (if hit then as_delivering row ∷ claimed else claimed, s2)

unfoldable pub claim_due_batch :
    (ℕ → Deliveries → Deliveries) → ℕ → ℕ → Deliveries → List DeliveryRecord × Deliveries
claim_due_batch others now limit s =
    claim_rows others (take limit (sort_by is_before (filter (is_due now) s.rows))) s

abbrev pub is_replayable : DeliveryStatus → Bool
is_replayable delivered = true
is_replayable dead_letter = true
is_replayable retrying = true
is_replayable _ = false

unfoldable pub replay_row : ℕ → DeliveryRecord → ℕ → DeliveryRecord
replay_row now d id = record d {
  id = id;
  status = pending;
  attempt_count = 0;
  next_attempt_at = now;
  last_attempt_at = none;
  delivered_at = none;
  last_status_code = none;
  last_error = none;
  created_at = now;
}

unfoldable pub replay_delivery : ℕ → ℕ → Exec Deliveries DeliveryRecord
replay_delivery now id s = elim (by_id delivery_id id s.rows) [
  | none ↦ (err Error.delivery_not_found, s)
  | some d ↦
      if is_replayable d.status
      then (ok (replay_row now d s.next_id), insert_row (replay_row now d) s)
      else (err Error.delivery_not_replayable, s)
]
