-- ===== src/Webhooks/Dispatcher.antt =====
-- `WebhookDispatcher` of apps/worker/src/webhooks/webhook-dispatcher.ts, and
-- packages/domain/webhooks/src/signing.ts. `fetch` answers each request; `hmac` is the hexadecimal
-- HMAC-SHA256 of the platform, `json` its JSON of an event, `number_text` its decimal notation, and
-- `message` the message of a database error. The `now` of a batch stands for each reading of the clock
-- in it: that of the claim, of the signature, and of markDelivered and markFailure.
use alice_uprm.Prelude.{
  ℕ, ◌+◌, ◌*◌, ◌/◌, ◌^◌, Bool, true, false, ◌||◌, Option, none, some, List, [], ◌∷◌, ◌++◌, leb,
  if◌then◌else◌,
}
use alice_uprm.Prelude.Text.{Text, codes}
use alice_uprm.Prelude.Exec.{
  Error, Result, ok, err, Exec, pure, throw, lift, ◌>>=◌, ◌>>◌, modify, try_catch,
}
use alice_uprm.Webhooks.Types.{OutboundWebhookEvent, DeliveryRecord, Deliveries}
use alice_uprm.Webhooks.Delivery.{mark_delivered, mark_failure, claim_due_batch, replay_delivery}

pub record DispatcherMetrics : Type 0 where
  pub delivered : ℕ
  pub failed : ℕ
  pub dead_letter : ℕ
  pub replayed : ℕ
  pub batches : ℕ

pub record WebhookDispatcher : Type 0 where
  pub service : Deliveries
  pub metrics : DispatcherMetrics

abbrev pub seconds : ℕ
seconds = 1000

-- `Math.min(60 * 60 * 24, 2 ** Math.min(attemptNumber, 10) * 30)`
unfoldable pub retry_seconds : ℕ → ℕ
retry_seconds n =
    let backoff = 2 ^ (if leb n 10 then n else 10) * 30 in
    if leb 86400 backoff then 86400 else backoff

unfoldable pub compute_retry_at : ℕ → ℕ → ℕ
compute_retry_at now n = now + retry_seconds n * seconds

-- `ageMs` may be negative, which is then less than a day.
unfoldable pub should_dead_letter : ℕ → ℕ → ℕ → Bool
should_dead_letter n created_at now = leb 6 n || leb (created_at + 24 * 60 * 60 * 1000) now

pub record WebhookSignature : Type 0 where
  pub timestamp : ℕ
  pub header : Text
  pub payload_json : Text
  pub digest : Text

-- What came back: the body of a refusal may fail to be read. A throw may be no `Error`, and then has
-- no message.
pub data Fetched : Type 0 where
  failed_to_send : Option Text → Fetched
  responded : (is_ok : Bool) (status : ℕ) (body : Result Text) → Fetched

unfoldable pub in_service {ℓ} : {A : Type ℓ} → Exec Deliveries A → Exec WebhookDispatcher A
in_service m d = let (r, s) = m d.service in (r, record d { service = s })

unfoldable pub count_delivered : WebhookDispatcher → WebhookDispatcher
count_delivered d = record d { metrics = record d.metrics { delivered = d.metrics.delivered + 1 } }

unfoldable pub count_failure : Bool → WebhookDispatcher → WebhookDispatcher
count_failure true d = record d {
  metrics = record d.metrics { dead_letter = d.metrics.dead_letter + 1 };
}
count_failure false d = record d { metrics = record d.metrics { failed = d.metrics.failed + 1 } }

unfoldable pub count_batch : WebhookDispatcher → WebhookDispatcher
count_batch d = record d { metrics = record d.metrics { batches = d.metrics.batches + 1 } }

module _ (fetch : DeliveryRecord → WebhookSignature → Fetched) (hmac : Text → Text → Text)
    (json : OutboundWebhookEvent → Text) (number_text : ℕ → Text) (message : Error → Text) where
  unfoldable pub create_webhook_signature : Text → OutboundWebhookEvent → ℕ → WebhookSignature
  create_webhook_signature secret payload timestamp =
      let payload_json = json payload in
      let digest = hmac secret (number_text timestamp ++ codes "." ++ payload_json) in
      record {
        timestamp = timestamp;
        payload_json = payload_json;
        digest = digest;
        header = codes "t=" ++ number_text timestamp ++ codes ",v1=" ++ digest;
      }

  -- `markFailure` and its metric; the result says that nothing was delivered.
  unfoldable pub on_failure : ℕ → DeliveryRecord → Option ℕ → Text → Exec WebhookDispatcher Bool
  on_failure now row code error = do
    in_service (
        mark_failure now row.id (record {
          status_code = code;
          error = error;
          retry_at = compute_retry_at now (row.attempt_count + 1);
          is_dead = should_dead_letter (row.attempt_count + 1) row.created_at now;
        }))
    modify (count_failure (should_dead_letter (row.attempt_count + 1) row.created_at now))
    pure false

  -- The message that the `catch` writes.
  unfoldable pub error_text : Error → Text
  error_text (Error.thrown t) = t
  error_text e = message e

  abbrev or_http_status : Text → ℕ → Text
  or_http_status [] code = codes "HTTP " ++ number_text code
  or_http_status (c ∷ cs) code = c ∷ cs

  -- The body of the `try`.
  unfoldable pub on_response : ℕ → DeliveryRecord → Fetched → Exec WebhookDispatcher Bool
  on_response now row (failed_to_send none) = throw (Error.thrown (codes "network error"))
  on_response now row (failed_to_send (some t)) = throw (Error.thrown t)
  on_response now row (responded true code body) = do
    in_service (mark_delivered now row.id code)
    modify count_delivered
    pure true
  on_response now row (responded false code body) = do
    text ← lift body
    on_failure now row (some code) (or_http_status text code)

  unfoldable pub dispatch_row : ℕ → DeliveryRecord → Exec WebhookDispatcher Bool
  dispatch_row now row =
      try_catch
        (on_response now row
          (fetch row (create_webhook_signature row.signing_secret row.payload (now / 1000))))
        (λ e. on_failure now row none (error_text e))

  -- The loop, which counts what was delivered.
  unfoldable pub dispatch_rows : ℕ → List DeliveryRecord → Exec WebhookDispatcher ℕ
  dispatch_rows now [] d = (ok 0, d)
  dispatch_rows now (row ∷ rows) d =
      let (r, d1) = dispatch_row now row d in
      let (n, d2) = dispatch_rows now rows d1 in
      elim r [
        | err e ↦ (err e, d1)
        | ok hit ↦ (elim n [ ok k ↦ ok (if hit then k + 1 else k) | err e ↦ err e ], d2)
      ]

  unfoldable pub dispatch_claimed : ℕ → List DeliveryRecord → Exec WebhookDispatcher ℕ
  dispatch_claimed now [] = pure 0
  dispatch_claimed now (row ∷ rows) = do
    n ← dispatch_rows now (row ∷ rows)
    modify count_batch
    pure n

  unfoldable pub dispatch_batch : (ℕ → Deliveries → Deliveries) → ℕ → ℕ → Exec WebhookDispatcher ℕ
  dispatch_batch others now limit d =
      let (claimed, s) = claim_due_batch others now limit d.service in
      dispatch_claimed now claimed (record d { service = s })

  unfoldable pub replay : ℕ → ℕ → Exec WebhookDispatcher DeliveryRecord
  replay now id = do
    modify (λ d. record d { metrics = record d.metrics { replayed = d.metrics.replayed + 1 } })
    in_service (replay_delivery now id)
