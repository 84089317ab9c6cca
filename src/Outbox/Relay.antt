-- ===== src/Outbox/Relay.antt =====
-- `OutboxRelayService` of packages/domain/outbox/src/relay.service.ts. `locked` says which rows other
-- workers hold locked, and `publish` how the publisher answers.
use alice_uprm.Prelude.{
  ℕ, ◌+◌, Bool, true, false, not, ◌&&◌, Option, none, some, List, [], ◌∷◌, map, ltb, leb,
  if◌then◌else◌, take,
}
use alice_uprm.Prelude.Text.{Text, codes}
use alice_uprm.Prelude.Exec.{Error, ok, err, Exec, pure, gets, ◌>>=◌, ◌>>◌, modify, try_catch}
use alice_uprm.Prelude.Rows.{filter, update_where, member}
use alice_uprm.Prelude.Keyed.{by_id, update_id}
use alice_uprm.Prelude.Sorting.{sort_by}

pub data MessageStatus : Type 0 where
  pending in_progress dispatched : MessageStatus

pub record OutboxMessage : Type 0 where
  pub id : ℕ
  pub topic : Text
  pub payload : Text
  pub status : MessageStatus
  pub attempts : ℕ
  pub created_at : ℕ
  pub dispatched_at : Option ℕ
  pub last_error : Option Text

pub record RelayMetrics : Type 0 where
  pub dispatched_count : ℕ
  pub failed : ℕ
  pub batches_processed : ℕ
  pub last_batch_at : Option ℕ

pub record Relay : Type 0 where
  pub messages : List OutboxMessage
  pub metrics : RelayMetrics

pub record RelayOptions : Type 0 where
  pub batch_size : Option ℕ
  pub max_attempts : Option ℕ

-- What `publish` does: it returns, or throws an error with a message or without.
pub data Published : Type 0 where
  sent : Published
  failed_with : Option Text → Published

abbrev pub message_id : OutboxMessage → ℕ
message_id m = m.id

abbrev pub is_waiting : MessageStatus → Bool
is_waiting pending = true
is_waiting _ = false

-- The `where` of the query, with `SKIP LOCKED`.
unfoldable pub is_claimable : ℕ → (OutboxMessage → Bool) → OutboxMessage → Bool
is_claimable max_attempts locked m =
    is_waiting m.status && (ltb m.attempts max_attempts && not (locked m))

abbrev pub is_older : OutboxMessage → OutboxMessage → Bool
is_older a b = leb a.created_at b.created_at

unfoldable pub claimable : ℕ → ℕ → (OutboxMessage → Bool) → List OutboxMessage → List OutboxMessage
claimable batch_size max_attempts locked ms =
    take batch_size (sort_by is_older (filter (is_claimable max_attempts locked) ms))

abbrev pub as_in_progress : OutboxMessage → OutboxMessage
as_in_progress m = record m { status = in_progress }

-- The transaction of the claim.
unfoldable pub claim : List OutboxMessage → Relay → Relay
claim rows s = record s {
  messages = update_where (λ m. member m.id (map message_id rows)) as_in_progress s.messages;
}

-- `outboxMessage.update`, which throws where no row has the id.
unfoldable pub update_message : ℕ → (OutboxMessage → OutboxMessage) → Exec Relay (Unit {0})
update_message id f s = elim (by_id message_id id s.messages) [
  | none ↦ (err Error.record_not_found, s)
  | some _ ↦ (ok tt, record s { messages = update_id message_id id f s.messages })
]

unfoldable pub as_dispatched : ℕ → OutboxMessage → OutboxMessage
as_dispatched now m = record m { status = dispatched; dispatched_at = some now }

abbrev pub reason_of : Option Text → Text
reason_of none = codes "publish failed"
reason_of (some t) = t

unfoldable pub as_failed : Option Text → OutboxMessage → OutboxMessage
as_failed reason m = record m {
  status = pending;
  attempts = m.attempts + 1;
  last_error = some (take 256 (reason_of reason));
}

unfoldable pub count_dispatched : Relay → Relay
count_dispatched s = record s {
  metrics = record s.metrics { dispatched_count = s.metrics.dispatched_count + 1 };
}

unfoldable pub count_failed : Relay → Relay
count_failed s = record s { metrics = record s.metrics { failed = s.metrics.failed + 1 } }

unfoldable pub on_failure : ℕ → Option Text → Exec Relay Bool
on_failure id reason = do update_message id (as_failed reason); modify count_failed; pure false

unfoldable pub on_success : ℕ → ℕ → Exec Relay Bool
on_success now id = do update_message id (as_dispatched now); modify count_dispatched; pure true

unfoldable pub count_processed : ℕ → Relay → Relay
count_processed now s = record s {
  metrics = record s.metrics {
    batches_processed = s.metrics.batches_processed + 1;
    last_batch_at = some now;
  };
}

abbrev pub or_default : Option ℕ → ℕ → ℕ
or_default none n = n
or_default (some k) n = k

-- The rows that a batch claims.
unfoldable pub batch_of : (OutboxMessage → Bool) → RelayOptions → Relay → List OutboxMessage
batch_of locked opts s =
    claimable (or_default opts.batch_size 50) (or_default opts.max_attempts 10) locked s.messages

-- `message` is the message of a database error.
module _ (publish : OutboxMessage → Published) (message : Error → Text) where
  -- The `try` and its `catch`, which a failure to publish enters before the update.
  unfoldable pub dispatch : ℕ → OutboxMessage → Exec Relay Bool
  dispatch now m = elim (publish m) [
    | failed_with reason ↦ on_failure m.id reason
    | sent ↦ try_catch (on_success now m.id) (λ e. on_failure m.id (some (message e)))
  ]

  -- The loop, which counts what was dispatched.
  unfoldable pub dispatch_all : ℕ → List OutboxMessage → Exec Relay ℕ
  dispatch_all now [] s = (ok 0, s)
  dispatch_all now (m ∷ ms) s =
      let (r, s1) = dispatch now m s in
      let (n, s2) = dispatch_all now ms s1 in
      elim r [
        | err e ↦ (err e, s1)
        | ok hit ↦ (elim n [ ok k ↦ ok (if hit then k + 1 else k) | err e ↦ err e ], s2)
      ]

  unfoldable pub dispatch_batch : (OutboxMessage → Bool) → ℕ → RelayOptions → Exec Relay ℕ
  dispatch_batch locked now opts = do
    rows ← gets (batch_of locked opts)
    modify (claim rows)
    n ← dispatch_all now rows
    modify (count_processed now)
    pure n
