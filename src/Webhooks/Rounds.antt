-- ===== src/Webhooks/Rounds.antt =====
-- One round of the dispatcher's loop (apps/worker/src/webhooks/webhook-dispatcher.ts): whatever the
-- endpoint answers, the delivery is updated once.
use alice_uprm.Prelude.{
  ℕ, ◌+◌, ◌/◌, ◌≡◌, refl, sym, ap, ◌∙◌, inl, inr, Bool, true, false, Option, none, some, List, [],
  ◌∷◌, arith, ◌==◌, ==_iff, Bool-cases, All, All-imp₂,
}
use alice_uprm.Prelude.Text.{Text}
use alice_uprm.Prelude.Exec.{Error, Result, ok, err, Exec, pure, ◌>>◌, modify, try_catch, >>=-of_ok}
use alice_uprm.Prelude.Keyed.{by_id, update_id, by_id_self, update_where-ids, update_where-distinct}
use mathlib.Core.Path.{subst}
use alice_uprm.Webhooks.Types.{
  OutboundWebhookEvent, delivering, DeliveryRecord, Deliveries, delivery_id,
}
use alice_uprm.Webhooks.Delivery.{
  update_delivery, as_delivered, mark_delivered, FailureInput, as_failed, mark_failure,
}
use alice_uprm.Webhooks.Dispatcher.{
  WebhookDispatcher, WebhookSignature, Fetched, failed_to_send, responded, compute_retry_at,
  should_dead_letter, in_service, count_delivered, count_failure, create_webhook_signature,
  on_failure, error_text, on_response, dispatch_row,
}
use alice_uprm.Webhooks.Attempts.{IsWithin, IsBounded}

-- What an attempt makes of the delivery.
pub data IsAttempt (now : ℕ) (row : DeliveryRecord)
    : (DeliveryRecord → DeliveryRecord) → Type 0 where
  success : (code : ℕ) → IsAttempt now row (as_delivered now code)
  failure :
      (input : FailureInput)
      → input.is_dead ≡ should_dead_letter (row.attempt_count + 1) row.created_at now
      → IsAttempt now row (as_failed now input)

pub IsAttempt-id :
    (now : ℕ) (row : DeliveryRecord) (f : DeliveryRecord → DeliveryRecord) (d : DeliveryRecord)
    → IsAttempt now row f
    → (f d).id ≡ d.id
unfolding as_delivered as_failed
IsAttempt-id now row _ d (IsAttempt.success code) = refl
IsAttempt-id now row _ d (IsAttempt.failure input dead) = refl

IsAttempt-IsWithin :
    (now : ℕ) (row : DeliveryRecord) (f : DeliveryRecord → DeliveryRecord)
    → IsAttempt now row f
    → row.status ≡ delivering
    → IsWithin row
    → IsWithin (f row)
unfolding as_delivered as_failed should_dead_letter
IsAttempt-IsWithin now row _ (IsAttempt.success code) h w = ground (arith, h)
IsAttempt-IsWithin now row _ (IsAttempt.failure input dead) h w = ground (arith, h, dead)

All-update_id :
    (i : ℕ) (f : DeliveryRecord → DeliveryRecord) (xs : List DeliveryRecord)
    → All (λ d. IsWithin d × (d.id ≡ i → IsWithin (f d))) xs
    → All IsWithin (update_id delivery_id i f xs)
All-update_id i f [] h = tt
All-update_id i f (x ∷ xs) h = (
  elim (Bool-cases (x.id == i)) [
    | inl hit ↦ rw hit (h.0.1 ((==_iff x.id i).0 hit))
    | inr miss ↦ rw miss h.0.0
  ],
  All-update_id i f xs h.1,
)

abbrev pub attempted : (DeliveryRecord → DeliveryRecord) → ℕ → Deliveries → Deliveries
attempted f id s = record s { rows = update_id delivery_id id f s.rows }

-- An attempt of a delivery that was claimed keeps the bound.
pub attempted-IsBounded :
    (now : ℕ) (row : DeliveryRecord) (f : DeliveryRecord → DeliveryRecord) (s : Deliveries)
    → IsAttempt now row f
    → row.status ≡ delivering
    → by_id delivery_id row.id s.rows ≡ some row
    → IsBounded s
    → IsBounded (attempted f row.id s)
attempted-IsBounded now row f s a status found h = record {
  distinct = update_where-distinct delivery_id f keeps _ s.rows h.distinct;
  below = update_where-ids delivery_id f keeps s.next_id _ s.rows h.below;
  within =
      All-update_id row.id f s.rows
        (All-imp₂ _ _ _ s.rows own h.within (by_id_self delivery_id s.rows h.distinct));
}
  where
    keeps : (d : DeliveryRecord) → (f d).id ≡ d.id
    keeps d = IsAttempt-id now row f d a

    own :
        (d : DeliveryRecord)
        → IsWithin d
        → by_id delivery_id d.id s.rows ≡ some d
        → IsWithin d × (d.id ≡ row.id → IsWithin (f d))
    own d w self = (
      w,
      λ same.
          let twice : some d ≡ some row =
            sym self ∙ ap (λ i. by_id delivery_id i s.rows) same ∙ found in
          let d_row : d ≡ row = cc in
          rw (sym d_row) at (IsAttempt-IsWithin now row f a status (subst IsWithin d_row w)),
    )

count_failure-service : (b : Bool) (d : WebhookDispatcher) → (count_failure b d).service ≡ d.service
unfolding count_failure
count_failure-service true d = refl
count_failure-service false d = refl

in_service-update :
    (id : ℕ) (f : DeliveryRecord → DeliveryRecord) (row : DeliveryRecord) (d : WebhookDispatcher)
    → by_id delivery_id id d.service.rows ≡ some row
    → in_service (update_delivery id f) d
      ≡ (ok (f row), record d { service = attempted f id d.service })
unfolding in_service update_delivery
in_service-update id f row d h = rw (h, update_delivery)

module _ (fetch : DeliveryRecord → WebhookSignature → Fetched) (hmac : Text → Text → Text)
    (json : OutboundWebhookEvent → Text) (number_text : ℕ → Text) (message : Error → Text) (now : ℕ)
    (row : DeliveryRecord) (d : WebhookDispatcher)
    (found : by_id delivery_id row.id d.service.rows ≡ some row) where
  abbrev pub Attempt : Result Bool × WebhookDispatcher → Type 0
  Attempt x =
      (b : Bool) × (f : DeliveryRecord → DeliveryRecord) × IsAttempt now row f
      × (x.0 ≡ ok b)
      × (x.1.service ≡ attempted f row.id d.service)

  abbrev is_last : Bool
  is_last = should_dead_letter (row.attempt_count + 1) row.created_at now

  on_failure-Attempt :
      (code : Option ℕ) (error : Text)
      → Attempt (on_failure fetch hmac json number_text message now row code error d)
  unfolding on_failure mark_failure
  on_failure-Attempt code error = (
    false,
    as_failed now input,
    IsAttempt.failure input refl,
    ap (λ x. x.0) run,
    ap (λ x. x.1.service) run ∙ count_failure-service is_last _,
  )
    where
      input : FailureInput
      input = record {
        status_code = code;
        error = error;
        retry_at = compute_retry_at now (row.attempt_count + 1);
        is_dead = is_last;
      }

      run : on_failure fetch hmac json number_text message now row code error d ≡ (
        ok false,
        count_failure is_last
            (record d { service = attempted (as_failed now input) row.id d.service }),
      )
      run =
          >>=-of_ok (in_service (update_delivery row.id (as_failed now input)))
            (λ _. modify (count_failure is_last) >> pure false) d (as_failed now input row) _
            (in_service-update row.id (as_failed now input) row d found)

  delivered-Attempt :
      (code : ℕ) (body : Result Text)
      → (d' : WebhookDispatcher) × (on_response fetch hmac json number_text message now row
            (responded true code body)
            d
          ≡ (ok true, d'))
        × (d'.service ≡ attempted (as_delivered now code) row.id d.service)
  unfolding on_response mark_delivered count_delivered
  delivered-Attempt code body = (
    count_delivered (record d { service = attempted (as_delivered now code) row.id d.service }),
    >>=-of_ok (in_service (update_delivery row.id (as_delivered now code)))
        (λ _. modify count_delivered >> pure true) d (as_delivered now code row) _
        (in_service-update row.id (as_delivered now code) row d found),
    refl,
  )

  caught :
      (m : Exec WebhookDispatcher Bool) (handler : Error → Exec WebhookDispatcher Bool) (e : Error)
      → m d ≡ (err e, d)
      → try_catch m handler d ≡ handler e d
  unfolding try_catch
  caught m handler e h =
      ap
        (λ (x : Result Bool × WebhookDispatcher). elim x.0 [
          | ok a ↦ (ok a, x.1)
          | err e ↦ handler e x.1
        ])
        h

  passed :
      (m : Exec WebhookDispatcher Bool) (handler : Error → Exec WebhookDispatcher Bool) (b : Bool)
      (d' : WebhookDispatcher)
      → m d ≡ (ok b, d')
      → try_catch m handler d ≡ (ok b, d')
  unfolding try_catch
  passed m handler b d' h =
      ap
        (λ (x : Result Bool × WebhookDispatcher). elim x.0 [
          | ok a ↦ (ok a, x.1)
          | err e ↦ handler e x.1
        ])
        h

  returned-Attempt :
      (m : Exec WebhookDispatcher Bool) (handler : Error → Exec WebhookDispatcher Bool)
      → Attempt (m d)
      → Attempt (try_catch m handler d)
  returned-Attempt m handler (b, f, a, result, service) =
      let pair : m d ≡ (ok b, (m d).1) = ap (λ (r : Result Bool). (r, (m d).1)) result in
      rw (passed m handler b (m d).1 pair) (b, f, a, refl, service)

  -- The `try` and its `catch`, for each answer.
  answered-Attempt :
      (answer : Fetched)
      → Attempt (
          try_catch
            (on_response fetch hmac json number_text message now row answer)
            (λ e.
              on_failure fetch hmac json number_text message now row none
                (error_text fetch hmac json number_text message e))
            d)
  unfolding on_response
  answered-Attempt (failed_to_send none) =
      rw
        (caught (on_response fetch hmac json number_text message now row (failed_to_send none)) _ _
          refl)
        (on_failure-Attempt none _)
  answered-Attempt (failed_to_send (some t)) =
      rw
        (caught (on_response fetch hmac json number_text message now row (failed_to_send (some t)))
          _ _ refl)
        (on_failure-Attempt none _)
  answered-Attempt (responded true code body) =
      let (d', run, service) = delivered-Attempt code body in
      rw (passed _ _ true d' run)
        (true, as_delivered now code, IsAttempt.success code, refl, service)
  answered-Attempt (responded false code (err e)) =
      rw
        (caught
          (on_response fetch hmac json number_text message now row (responded false code (err e))) _
          e refl)
        (on_failure-Attempt none _)
  answered-Attempt (responded false code (ok text)) =
      returned-Attempt
        (on_response fetch hmac json number_text message now row (responded false code (ok text))) _
        (on_failure-Attempt (some code) _)

  pub dispatch_row-Attempt : Attempt (dispatch_row fetch hmac json number_text message now row d)
  unfolding dispatch_row
  dispatch_row-Attempt = answered-Attempt (
      fetch row (
        create_webhook_signature fetch hmac json number_text message row.signing_secret row.payload
          (now / 1000)))
