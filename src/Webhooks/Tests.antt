-- ===== src/Webhooks/Tests.antt =====
-- Runs of the webhook deliveries (packages/domain/webhooks/src/delivery.service.ts and
-- apps/worker/src/webhooks/webhook-dispatcher.ts).
use alice_uprm.Prelude.{
  ℕ, ◌+◌, ◌*◌, ◌^◌, ◌≤◌, ◌≡◌, refl, ◌⊎◌, Bool, true, false, none, some, [], ◌∷◌, ◌++◌, map, arith,
  if◌then◌else◌,
}
use alice_uprm.Prelude.Text.{Text, codes, text_eq}
use alice_uprm.Prelude.Exec.{Error, ok, err, try_catch}
use alice_uprm.Webhooks.Types.{
  reward_created, refund_reversed, OutboundWebhookEvent, OutboundWebhookEndpoint,
  OutboundWebhookConfig, pending, delivering, delivered, status_eq, DeliveryRecord, Deliveries,
}
use alice_uprm.Webhooks.Config.{Json, is_complete, parse_outbound_webhook_config}
use alice_uprm.Webhooks.Delivery.{
  delivery_row, insert_row, enqueue_for_endpoints, get_delivery, update_delivery, as_delivered,
  mark_delivered, as_failed, mark_failure, is_due, is_unclaimed, claim_row, claim_rows,
  claim_due_batch, replay_delivery,
}
use alice_uprm.Webhooks.Dispatcher.{
  WebhookDispatcher, WebhookSignature, Fetched, failed_to_send, responded, retry_seconds,
  compute_retry_at, should_dead_letter, in_service, count_delivered, count_failure, count_batch,
  create_webhook_signature, on_failure, error_text, on_response, dispatch_row, dispatch_rows,
  dispatch_claimed, dispatch_batch,
}
use alice_uprm.Webhooks.Claims.{claim_all, claim_row_once}
use alice_uprm.Webhooks.Retry.{retry_seconds-backoff}
use alice_uprm.Webhooks.Attempts.{IsBounded}
use alice_uprm.Webhooks.Batch.{alone}
use alice_uprm.Webhooks.Bounded.{dispatch_batch-IsBounded}
use alice_uprm.Webhooks.Settings.{config_json, parse_outbound_webhook_config-config_json}
use alice_uprm.Webhooks.Replays.{HasBeenTried, IsReplay, replay_delivery-Effect}
use alice_uprm.Prelude.Sorting.{sort_by, insert_by}

abbrev event : OutboundWebhookEvent
event = record {
  event_type = reward_created;
  tenant_id = 7;
  occurred_at = codes "2026-01-01";
  payload = codes "{}";
  source_event_id = none;
  source_topic = none;
}

abbrev shop : OutboundWebhookEndpoint
shop = record {
  id = codes "shop";
  url = codes "https://shop";
  secret = codes "s";
  event_types = reward_created ∷ [];
}

abbrev bank : OutboundWebhookEndpoint
bank = record {
  id = codes "bank";
  url = codes "https://bank";
  secret = codes "b";
  event_types = refund_reversed ∷ reward_created ∷ [];
}

abbrev queued : Deliveries
queued = record {
  rows = delivery_row 0 1000 event shop ∷ delivery_row 1 1000 event bank ∷ [];
  next_id = 2;
}

enqueue_for_endpoints-queued :
    enqueue_for_endpoints 1000 event (shop ∷ bank ∷ []) (record { rows = []; next_id = 0 })
    ≡ (ok 2, queued)
unfolding enqueue_for_endpoints insert_row delivery_row
enqueue_for_endpoints-queued = refl

queued-IsBounded : IsBounded queued
unfolding delivery_row
queued-IsBounded = record {
  distinct = ((omega arith, tt), (tt, tt));
  below = (omega arith, (omega arith, tt));
  within = (omega arith, (omega arith, tt));
}

abbrev arrived : Deliveries
arrived = record { rows = as_delivered 2000 200 (delivery_row 0 1000 event shop) ∷ []; next_id = 1 }

arrived-IsBounded : IsBounded arrived
unfolding delivery_row as_delivered
arrived-IsBounded = record {
  distinct = (tt, tt);
  below = (omega arith, tt);
  within = (omega arith, tt);
}

abbrev digest_of : Text → Text → Text
digest_of secret text = secret ++ text

abbrev json_of : OutboundWebhookEvent → Text
json_of e = e.payload

abbrev number_text_of : ℕ → Text
number_text_of n = (n + 48) ∷ []

abbrev message_of : Error → Text
message_of e = codes "error"

-- The bank's endpoint is down.
abbrev answer : DeliveryRecord → WebhookSignature → Fetched
answer row signature =
    if text_eq row.endpoint_url (codes "https://shop")
    then responded true 200 (ok [])
    else failed_to_send (some (codes "down"))

abbrev dispatcher : WebhookDispatcher
dispatcher = record {
  service = queued;
  metrics = record { delivered = 0; failed = 0; dead_letter = 0; replayed = 0; batches = 0 };
}

abbrev summary : DeliveryRecord → Bool × ℕ × ℕ
summary d = (status_eq d.status delivered, d.attempt_count, d.next_attempt_at)

dispatched :
    let out =
      dispatch_batch answer digest_of json_of number_text_of message_of alone 2000 25 dispatcher in
    (out.0 ≡ ok 1) × (map summary out.1.service.rows ≡ (true, 1, 1000) ∷ (false, 1, 62000) ∷ [])
unfolding dispatch_batch dispatch_claimed dispatch_rows dispatch_row on_response on_failure
    error_text create_webhook_signature count_batch count_failure count_delivered in_service
    should_dead_letter compute_retry_at retry_seconds delivery_row mark_delivered mark_failure
    as_delivered as_failed update_delivery claim_due_batch claim_rows claim_row is_unclaimed sort_by
    insert_by is_due try_catch text_eq
dispatched = (refl, refl)

abbrev settings : OutboundWebhookConfig
settings = record { enabled = true; endpoints = shop ∷ bank ∷ [] }

abbrev text_of : Json → Text
text_of v = []

abbrev is_zero : Text → Bool
is_zero t = text_eq t (codes "0")

claim_row_once_example :
    (claim_row (delivery_row 0 1000 event shop) (
      claim_all
        (delivery_row 1 1000 event bank ∷ [])
        (claim_row (delivery_row 0 1000 event shop) queued).1)).0
    ≡ false
unfolding delivery_row
claim_row_once_example =
    claim_row_once (delivery_row 0 1000 event shop) (delivery_row 1 1000 event bank ∷ []) queued
      refl

retry_seconds-backoff_example :
    (3 ≤ 10 → retry_seconds 3 ≡ 2 ^ 3 * 30)
    × (10 ≤ 3 → retry_seconds 3 ≡ 30720)
    × (retry_seconds 3 ≤ 30720)
retry_seconds-backoff_example = retry_seconds-backoff 3

dispatch_batch-IsBounded_example :
    let out =
      dispatch_batch answer digest_of json_of number_text_of message_of alone 2000 25 dispatcher in
    ((n : ℕ) × (out.0 ≡ ok n)) × IsBounded out.1.service
dispatch_batch-IsBounded_example =
    dispatch_batch-IsBounded answer digest_of json_of number_text_of message_of 2000 25 dispatcher
      queued-IsBounded

replay_delivery-Effect_example :
    let out = replay_delivery 3000 0 arrived in
    ((get_delivery 0 arrived ≡ none) × (out ≡ (err Error.delivery_not_found, arrived)))
    ⊎ ((d : DeliveryRecord) × (get_delivery 0 arrived ≡ some d)
        × (((d.status ≡ pending ⊎ d.status ≡ delivering)
              × (out ≡ (err Error.delivery_not_replayable, arrived)))
            ⊎ ((c : DeliveryRecord) × HasBeenTried d.status
                × (out.0 ≡ ok c)
                × IsReplay 3000 d arrived c out.1)))
replay_delivery-Effect_example = replay_delivery-Effect 3000 0 arrived arrived-IsBounded

parse_outbound_webhook_config-config_json_example :
    parse_outbound_webhook_config text_of is_zero (config_json settings) ≡ some settings
unfolding is_complete
parse_outbound_webhook_config-config_json_example =
    parse_outbound_webhook_config-config_json text_of is_zero settings (refl, (refl, tt))
