-- ===== src/Outbox/Refinement.antt =====
-- A batch of the relay, as one change of every message
-- (packages/domain/outbox/src/relay.service.ts).
use alice_uprm.Prelude.{
  ℕ, ◌≡◌, refl, sym, ap, ◌∙◌, inl, inr, Bool, true, false, none, some, List, [], ◌∷◌, map, arith,
  ◌==◌, if◌then◌else◌, Bool-cases, Option-cases, All, All-imp, take,
}
use alice_uprm.Prelude.Text.{Text}
use alice_uprm.Prelude.Exec.{Error, Result, ok, pure, ◌>>◌, modify, >>=-of_ok}
use alice_uprm.Prelude.Rows.{member, find-All, All-filter, find-update_where}
use alice_uprm.Prelude.Keyed.{by_id, HasDistinctIds, by_id-id, by_id_self, HasDistinctIds-filter}
use alice_uprm.Prelude.Sorting.{All-sort_by, distinct-sort_by, All-take, distinct-take}
use alice_uprm.Outbox.Relay.{
  OutboxMessage, Relay, RelayOptions, Published, sent, failed_with, message_id, is_claimable,
  is_older, claimable, as_in_progress, claim, count_processed, or_default, batch_of, dispatch_all,
  dispatch_batch,
}
use alice_uprm.Outbox.Queue.{limit, IsQueue, batch_of-take}
use alice_uprm.Outbox.Settling.{settled, IsThere, dispatch_all-Settles}

-- The rows of a batch are as they stand in the table.
batch-read :
    (locked : OutboxMessage → Bool) (opts : RelayOptions) (s : Relay)
    → HasDistinctIds message_id s.messages
    → All (λ m. by_id message_id m.id s.messages ≡ some m) (batch_of locked opts s)
      × HasDistinctIds message_id (batch_of locked opts s)
unfolding batch_of claimable
batch-read locked opts s h =
    let p = is_claimable (or_default opts.max_attempts 10) locked in
    (
      All-take _ (or_default opts.batch_size 50) _ (
          All-sort_by is_older _ _ (
            All-filter (λ m. by_id message_id m.id s.messages ≡ some m) p s.messages
              (All-imp _ _ s.messages (λ y k _. k) (by_id_self message_id s.messages h)))),
      distinct-take message_id (or_default opts.batch_size 50) _ (
          distinct-sort_by is_older message_id _ (HasDistinctIds-filter message_id p s.messages h)),
    )

not_member :
    (i : ℕ) (ms : List OutboxMessage)
    → by_id message_id i ms ≡ none
    → member i (map message_id ms) ≡ false
not_member i [] h = refl
not_member i (m ∷ ms) h = elim (Bool-cases (m.id == i)) [
  | inl here ↦ let hit : some m ≡ none = rw here at h in cc
  | inr other ↦
      let apart : (i == m.id) ≡ false = ground arith in rw apart (not_member i ms (rw other at h))
]

is_member :
    (i : ℕ) (ms : List OutboxMessage) (m : OutboxMessage)
    → by_id message_id i ms ≡ some m
    → member i (map message_id ms) ≡ true
is_member i [] m h = cc
is_member i (x ∷ xs) m h = elim (Bool-cases (x.id == i)) [
  | inl here ↦ let same : (i == x.id) ≡ true = ground arith in rw same refl
  | inr other ↦ ground (arith, is_member i xs m (rw other at h))
]

settled-claimed :
    (now : ℕ) (p : Published) (x : OutboxMessage)
    → settled now p (as_in_progress x) ≡ settled now p x
settled-claimed now sent x = refl
settled-claimed now (failed_with reason) x = refl

claimed_found :
    (rows : List OutboxMessage) (s : Relay) (i : ℕ) (x : OutboxMessage)
    → by_id message_id i s.messages ≡ some x
    → by_id message_id i (claim rows s).messages
      ≡ some (if member x.id (map message_id rows) then as_in_progress x else x)
unfolding claim
claimed_found rows s i x found =
    find-update_where (λ m. m.id == i) (λ m. member m.id (map message_id rows)) as_in_progress
      s.messages x (λ y. refl) found

batch-settles :
    (publish : OutboxMessage → Published) (message : Error → Text) (locked : OutboxMessage → Bool)
    (now : ℕ) (opts : RelayOptions) (s : Relay) (i : ℕ) (x : OutboxMessage)
    → HasDistinctIds message_id s.messages
    → by_id message_id i s.messages ≡ some x
    → let out = dispatch_batch publish message locked now opts s in
      ((n : ℕ) × (out.0 ≡ ok n))
      × (by_id message_id i out.1.messages
          ≡ some (
              if member i (map message_id (batch_of locked opts s))
              then settled now (publish x) x
              else x))
unfolding dispatch_batch count_processed
batch-settles publish message locked now opts s i x h found =
    let rows = batch_of locked opts s in
    let (read, distinct) = batch-read locked opts s h in
    let there =
      All-imp _ (IsThere (claim rows s)) rows (λ m k. (_, claimed_found rows s m.id m k)) read in
    let (n, s2, run, settles) =
      dispatch_all-Settles publish message now rows (claim rows s) distinct there in
    let done =
      >>=-of_ok (dispatch_all publish message now rows)
        (λ k. modify (count_processed now) >> pure k) (claim rows s) n s2 run in
    let own : x.id ≡ i = by_id-id message_id i s.messages x found in
    let after = settles i _ (claimed_found rows s i x found) in
    (
      (n, ap (λ (y : Result ℕ × Relay). y.0) done),
      ap (λ (y : Result ℕ × Relay). by_id message_id i y.1.messages) done
          ∙ after
          ∙ final publish now rows s i x own found read,
    )
  where
    final :
        (publish : OutboxMessage → Published) (now : ℕ) (rows : List OutboxMessage) (s : Relay)
        (i : ℕ) (x : OutboxMessage)
        → x.id ≡ i
        → by_id message_id i s.messages ≡ some x
        → All (λ m. by_id message_id m.id s.messages ≡ some m) rows
        → some (elim (by_id message_id i rows) [
          | none ↦ if member x.id (map message_id rows) then as_in_progress x else x
          | some m ↦
              settled now
                (publish m)
                (if member x.id (map message_id rows) then as_in_progress x else x)
        ])
          ≡ some (if member i (map message_id rows) then settled now (publish x) x else x)
    final publish now rows s i x own found read = elim (Option-cases (by_id message_id i rows)) [
      | inl absent ↦
          let out = not_member i rows absent in
          let out_too = ap (λ j. member j (map message_id rows)) own ∙ out in
          rw (absent, out, out_too) refl
      | inr (m, taken) ↦
          let stored =
            find-All (λ m. by_id message_id m.id s.messages ≡ some m) _ rows m read taken in
          let same : m.id ≡ i = by_id-id message_id i rows m taken in
          let both : some x ≡ some m =
            sym found ∙ sym (ap (λ j. by_id message_id j s.messages) same) ∙ stored in
          let row : x ≡ m = cc in
          let chosen = is_member i rows m taken in
          let chosen_too = ap (λ j. member j (map message_id rows)) own ∙ chosen in
          rw (taken, chosen, chosen_too, sym row) (ap some (settled-claimed now (publish x) x))
    ]

-- A batch of the relay returns, whatever the publisher answers, and changes each message at once. It
-- claims the oldest of the messages that are pending, have had fewer attempts than `maxAttempts` (10)
-- and are not locked, as many as `batchSize` (50) allows. A claimed message is dispatched at `now` when
-- the publisher took it, and is pending again when it did not, with one more attempt and as `last_error`
-- the reason cut to 256 (`publish failed` when there is none). No other field changes, and any other
-- message stays as it is; provided that the ids are distinct.
pub dispatch_batch-settles :
    (publish : OutboxMessage → Published) (message : Error → Text) (locked : OutboxMessage → Bool)
    (now : ℕ) (opts : RelayOptions) (s : Relay) (i : ℕ) (x : OutboxMessage)
    → HasDistinctIds message_id s.messages
    → by_id message_id i s.messages ≡ some x
    → let out = dispatch_batch publish message locked now opts s in
      (queue : List OutboxMessage) × IsQueue locked opts s queue
      × ((n : ℕ) × (out.0 ≡ ok n))
      × (by_id message_id i out.1.messages
          ≡ some (
              if member i (map message_id (take (limit opts.batch_size 50) queue))
              then settled now (publish x) x
              else x))
dispatch_batch-settles publish message locked now opts s i x h found =
    let (queue, ordered, taken) = batch_of-take locked opts s in
    let (returns, changed) = batch-settles publish message locked now opts s i x h found in
    (queue, ordered, returns, rw taken at changed)
