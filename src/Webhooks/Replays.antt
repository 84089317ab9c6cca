-- ===== src/Webhooks/Replays.antt =====
-- Replays of a delivery (`replayDelivery` of packages/domain/webhooks/src/delivery.service.ts).
use alice_uprm.Prelude.{
  ℕ, ◌≡◌, refl, ◌∙◌, ◌⊎◌, inl, inr, true, false, none, some, arith, ==_iff, Bool-cases,
  Option-cases,
}
use alice_uprm.Prelude.Exec.{Error, ok, err}
use alice_uprm.Prelude.Rows.{find-append_some, find-append_none}
use alice_uprm.Prelude.Keyed.{by_id, by_id-fresh}
use alice_uprm.Webhooks.Types.{
  DeliveryRecord, Deliveries, delivery_id, pending, delivering, retrying, delivered, dead_letter,
  DeliveryStatus,
}
use alice_uprm.Webhooks.Delivery.{
  insert_row, get_delivery, is_due, is_replayable, replay_row, replay_delivery,
}
use alice_uprm.Webhooks.Attempts.{IsBounded}

-- `c` is a new row for the same event, endpoint and secret, due at once with no attempts, and all else
-- stands as it was.
pub record IsReplay (now : ℕ) (d : DeliveryRecord) (s : Deliveries) (c : DeliveryRecord)
    (s' : Deliveries) : Type 0 where
  pub stored : get_delivery c.id s' ≡ some c
  pub fresh : get_delivery c.id s ≡ none
  pub rest : (j : ℕ) (e : DeliveryRecord) → get_delivery j s ≡ some e → get_delivery j s' ≡ some e
  pub due : is_due now c ≡ true
  pub at_once : c.next_attempt_at ≡ now
  pub status : c.status ≡ pending
  pub untried : c.last_attempt_at ≡ none
  pub undelivered : c.delivered_at ≡ none
  pub no_code : c.last_status_code ≡ none
  pub no_error : c.last_error ≡ none
  pub created : c.created_at ≡ now
  pub tenant : c.tenant_id ≡ d.tenant_id
  pub event_type : c.event_type ≡ d.event_type
  pub source_topic : c.source_topic ≡ d.source_topic
  pub source_event : c.source_event_id ≡ d.source_event_id
  pub attempts : c.attempt_count ≡ 0
  pub payload : c.payload ≡ d.payload
  pub endpoint : c.endpoint_url ≡ d.endpoint_url
  pub secret : c.signing_secret ≡ d.signing_secret

replay_row-IsReplay :
    (now : ℕ) (d : DeliveryRecord) (s : Deliveries)
    → IsBounded s
    → IsReplay now d s (replay_row now d s.next_id) (insert_row (replay_row now d) s)
unfolding replay_row insert_row get_delivery is_due
replay_row-IsReplay now d s h =
    let fresh = by_id-fresh delivery_id s.next_id s.rows h.below in
    record {
      stored = find-append_none _ s.rows _ fresh ∙ rw ((==_iff s.next_id s.next_id).1 refl) refl;
      fresh = fresh;
      rest = λ j e k. find-append_some _ s.rows _ e k;
      due = ground arith;
      at_once = refl;
      status = refl;
      untried = refl;
      undelivered = refl;
      no_code = refl;
      no_error = refl;
      created = refl;
      tenant = refl;
      event_type = refl;
      source_topic = refl;
      source_event = refl;
      attempts = refl;
      payload = refl;
      endpoint = refl;
      secret = refl;
    }

not_replayable : (t : DeliveryStatus) → is_replayable t ≡ false → (t ≡ pending) ⊎ (t ≡ delivering)
not_replayable pending h = inl refl
not_replayable delivering h = inr refl
not_replayable retrying h = cc
not_replayable delivered h = cc
not_replayable dead_letter h = cc

-- The statuses of a delivery that has had an attempt and is not being delivered.
abbrev pub HasBeenTried : DeliveryStatus → Type 0
HasBeenTried t = t ≡ retrying ⊎ t ≡ delivered ⊎ t ≡ dead_letter

replayable : (t : DeliveryStatus) → is_replayable t ≡ true → HasBeenTried t
replayable pending h = cc
replayable delivering h = cc
replayable retrying h = inl refl
replayable delivered h = inr (inl refl)
replayable dead_letter h = inr (inr refl)

-- A replay of a delivery throws and changes nothing when the delivery is not there, or is pending or
-- being delivered. When the delivery is retrying, delivered or a dead letter, it returns a new pending
-- row, under an id of its own, for the same tenant, event, endpoint and secret, that is due at once with
-- no attempts and no result of one; every other row stays as it is. The ids of the rows are distinct and below the next one,
-- and their counters within bounds.
pub replay_delivery-Effect :
    (now id : ℕ) (s : Deliveries)
    → IsBounded s
    → let out = replay_delivery now id s in
      ((get_delivery id s ≡ none) × (out ≡ (err Error.delivery_not_found, s)))
      ⊎ ((d : DeliveryRecord) × (get_delivery id s ≡ some d)
          × (((d.status ≡ pending ⊎ d.status ≡ delivering)
                × (out ≡ (err Error.delivery_not_replayable, s)))
              ⊎ ((c : DeliveryRecord) × HasBeenTried d.status
                  × (out.0 ≡ ok c)
                  × IsReplay now d s c out.1)))
unfolding get_delivery replay_delivery
replay_delivery-Effect now id s h = elim (Option-cases (by_id delivery_id id s.rows)) [
  | inl absent ↦ inl (absent, rw (absent, replay_delivery) refl)
  | inr (d, found) ↦ elim (Bool-cases (is_replayable d.status)) [
    | inl open_again ↦
        let run : replay_delivery now id s
            ≡ (ok (replay_row now d s.next_id), insert_row (replay_row now d) s) =
          rw (found, open_again, replay_delivery) refl in
        rw run (
          inr (
            d,
            found,
            inr (
              replay_row now d s.next_id,
              replayable d.status open_again,
              refl,
              replay_row-IsReplay now d s h,
            ),
          ))
    | inr refused ↦
        inr (
          d,
          found,
          inl (not_replayable d.status refused, rw (found, refused, replay_delivery) refl),
        )
  ]
]
