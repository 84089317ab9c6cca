-- ===== src/Outbox/Tests.antt =====
-- Runs of the outbox relay (packages/domain/outbox/src/relay.service.ts).
use alice_uprm.Prelude.{
  ℕ, ◌≡◌, refl, Bool, false, Option, none, some, List, [], ◌∷◌, map, arith, ◌==◌, if◌then◌else◌,
  take,
}
use alice_uprm.Prelude.Text.{Text, codes}
use alice_uprm.Prelude.Exec.{Error, ok, try_catch}
use alice_uprm.Prelude.Rows.{member}
use alice_uprm.Prelude.Keyed.{by_id}
use alice_uprm.Prelude.Sorting.{sort_by, insert_by}
use alice_uprm.Outbox.Relay.{
  pending, OutboxMessage, Relay, RelayOptions, Published, sent, failed_with, message_id,
  is_claimable, claimable, claim, update_message, as_dispatched, as_failed, count_dispatched,
  count_failed, on_failure, on_success, count_processed, batch_of, dispatch, dispatch_all,
  dispatch_batch,
}
use alice_uprm.Outbox.Queue.{limit, IsQueue}
use alice_uprm.Outbox.Settling.{settled}
use alice_uprm.Outbox.Refinement.{dispatch_batch-settles}

abbrev message : ℕ → ℕ → ℕ → OutboxMessage
message id attempts created_at = record {
  id = id;
  topic = codes "t";
  payload = codes "{}";
  status = pending;
  attempts = attempts;
  created_at = created_at;
  dispatched_at = none;
  last_error = none;
}

-- The third message has used up its attempts.
abbrev waiting : Relay
waiting = record {
  messages = message 1 0 30 ∷ message 2 4 20 ∷ message 3 10 10 ∷ [];
  metrics = record {
    dispatched_count = 0;
    failed = 0;
    batches_processed = 0;
    last_batch_at = none;
  };
}

abbrev answer : OutboxMessage → Published
answer m = if m.id == 2 then failed_with none else sent

abbrev text_of : Error → Text
text_of e = codes "error"

abbrev unlocked : OutboxMessage → Bool
unlocked m = false

abbrev defaults : RelayOptions
defaults = record { batch_size = none; max_attempts = none }

abbrev view : OutboxMessage → ℕ × ℕ × Option ℕ
view m = (m.id, m.attempts, m.dispatched_at)

ran :
    let out = dispatch_batch answer text_of unlocked 99 defaults waiting in
    (out.0 ≡ ok 1) × (map view out.1.messages ≡ (1, 0, some 99) ∷ (2, 5, none) ∷ (3, 10, none) ∷ [])
unfolding dispatch_batch batch_of claimable is_claimable claim dispatch_all dispatch on_success
    on_failure update_message as_dispatched as_failed count_dispatched count_failed count_processed
    try_catch sort_by insert_by
ran = (refl, refl)

dispatch_batch-settles_example :
    let out = dispatch_batch answer text_of unlocked 99 defaults waiting in
    (queue : List OutboxMessage) × IsQueue unlocked defaults waiting queue
    × ((n : ℕ) × (out.0 ≡ ok n))
    × (by_id message_id 2 out.1.messages
        ≡ some (
            if member 2 (map message_id (take (limit none 50) queue))
            then settled 99 (failed_with none) (message 2 4 20)
            else message 2 4 20))
dispatch_batch-settles_example =
    dispatch_batch-settles answer text_of unlocked 99 defaults waiting 2 (message 2 4 20)
      ((omega arith, (omega arith, tt)), ((omega arith, tt), (tt, tt))) refl
