-- ===== src/Webhooks/Bounded.antt =====
-- A whole batch of the dispatcher (apps/worker/src/webhooks/webhook-dispatcher.ts), when no other
-- worker claims deliveries meanwhile.
use alice_uprm.Prelude.{
  ℕ, ◌≡◌, refl, sym, ap, ◌∙◌, ◌≢◌, false, some, List, [], ◌∷◌, map, arith, ◌==◌, All, All-imp₂,
}
use alice_uprm.Prelude.Text.{Text}
use alice_uprm.Prelude.Exec.{Error, Result, ok, Exec, pure, ◌>>◌, modify, >>=-of_ok}
use alice_uprm.Prelude.Keyed.{by_id, update_id, HasDistinctIds, by_id-update_id}
use alice_uprm.Webhooks.Types.{
  OutboundWebhookEvent, delivering, DeliveryRecord, Deliveries, delivery_id,
}
use alice_uprm.Webhooks.Delivery.{as_delivering, claim_row, claim_rows, claim_due_batch}
use alice_uprm.Webhooks.Dispatcher.{
  WebhookDispatcher, WebhookSignature, Fetched, count_batch, dispatch_row, dispatch_rows,
  dispatch_claimed, dispatch_batch,
}
use alice_uprm.Webhooks.Attempts.{IsBounded, claim_row-IsBounded}
use alice_uprm.Webhooks.Batch.{
  alone, Read, IsOpen, due_rows, due_rows-Read, due_rows-IsOpen, claim-own, claim-other,
}
use alice_uprm.Webhooks.Rounds.{
  IsAttempt, IsAttempt-id, attempted, attempted-IsBounded, dispatch_row-Attempt,
}

-- Rows that stand in the table as claimed, with the ids distinct.
abbrev pub Claimed : List DeliveryRecord → Deliveries → Type 0
Claimed rows s =
    All (λ r. (by_id delivery_id r.id s.rows ≡ some r) × (r.status ≡ delivering)) rows
    × HasDistinctIds delivery_id rows

claim_row-Read :
    (row : DeliveryRecord) (rows : List DeliveryRecord) (s : Deliveries)
    → Read (row ∷ rows) s
    → Read rows (claim_row row s).1
unfolding claim_row
claim_row-Read row rows s (found, distinct) = (
  All-imp₂ _ _ _ rows (λ r apart k. claim-other row r.id s.rows (λ e. apart (sym e)) ∙ k) distinct.0
      found.1,
  distinct.1,
)

claim_rows-other :
    (j : ℕ) (rows : List DeliveryRecord) (s : Deliveries)
    → All (λ r. r.id ≢ j) rows
    → by_id delivery_id j (claim_rows alone rows s).1.rows ≡ by_id delivery_id j s.rows
unfolding claim_rows claim_row
claim_rows-other j [] s h = refl
claim_rows-other j (r ∷ rs) s h =
    claim_rows-other j rs (claim_row r s).1 h.1 ∙ claim-other r j s.rows h.0

claim_rows-map :
    (rows : List DeliveryRecord) (s : Deliveries)
    → Read rows s
    → (claim_rows alone rows s).0 ≡ map as_delivering rows
unfolding claim_rows claim_row
claim_rows-map [] s h = refl
claim_rows-map (r ∷ rs) s h =
    rw ((claim-own r s.rows h.0.0).1)
      (ap (◌∷◌ (as_delivering r)) (claim_rows-map rs (claim_row r s).1 (claim_row-Read r rs s h)))

claim_rows-found :
    (rows : List DeliveryRecord) (s : Deliveries)
    → Read rows s
    → All
        (λ r.
          (by_id delivery_id r.id (claim_rows alone rows s).1.rows ≡ some r)
          × (r.status ≡ delivering))
        (map as_delivering rows)
unfolding claim_rows claim_row
claim_rows-found [] s h = tt
claim_rows-found (r ∷ rs) s h = (
  (claim_rows-other r.id rs (claim_row r s).1 h.1.0 ∙ (claim-own r s.rows h.0.0).0, refl),
  claim_rows-found rs (claim_row r s).1 (claim_row-Read r rs s h),
)

distinct-map :
    (rows : List DeliveryRecord)
    → HasDistinctIds delivery_id rows
    → HasDistinctIds delivery_id (map as_delivering rows)
distinct-map [] h = tt
distinct-map (r ∷ rs) h = (go rs h.0, distinct-map rs h.1)
  where
    go :
        (xs : List DeliveryRecord)
        → All (λ y. y.id ≢ r.id) xs
        → All (λ y. y.id ≢ r.id) (map as_delivering xs)
    go [] k = tt
    go (x ∷ xs) k = (k.0, go xs k.1)

claim_rows-IsBounded :
    (rows : List DeliveryRecord) (s : Deliveries)
    → All IsOpen rows
    → IsBounded s
    → IsBounded (claim_rows alone rows s).1
unfolding claim_rows
claim_rows-IsBounded [] s h k = k
claim_rows-IsBounded (r ∷ rs) s h k =
    claim_rows-IsBounded rs (claim_row r s).1 h.1 (claim_row-IsBounded r s h.0 k)

claim_due_batch-Claimed :
    (now limit : ℕ) (s : Deliveries)
    → IsBounded s
    → let out = claim_due_batch alone now limit s in Claimed out.0 out.1 × IsBounded out.1
unfolding claim_due_batch due_rows
claim_due_batch-Claimed now limit s h =
    let rows = due_rows now limit s in
    let read = due_rows-Read now limit s h in
    (
      rw (claim_rows-map rows s read) (claim_rows-found rows s read, distinct-map rows read.1),
      claim_rows-IsBounded rows s (due_rows-IsOpen now limit s) h,
    )

attempted-Claimed :
    (now : ℕ) (row : DeliveryRecord) (f : DeliveryRecord → DeliveryRecord)
    (rows : List DeliveryRecord) (s : Deliveries)
    → IsAttempt now row f
    → Claimed (row ∷ rows) s
    → Claimed rows (attempted f row.id s)
attempted-Claimed now row f rows s a (found, distinct) =
    (All-imp₂ _ _ _ rows still distinct.0 found.1, distinct.1)
  where
    still :
        (r : DeliveryRecord)
        → r.id ≢ row.id
        → (by_id delivery_id r.id s.rows ≡ some r) × (r.status ≡ delivering)
        → (by_id delivery_id r.id (update_id delivery_id row.id f s.rows) ≡ some r)
          × (r.status ≡ delivering)
    still r apart (k, status) =
        let other : (r.id == row.id) ≡ false = ground arith in
        (
          by_id-update_id delivery_id f (λ d. IsAttempt-id now row f d a) r.id row.id s.rows
              ∙ rw other k,
          status,
        )

module _ (fetch : DeliveryRecord → WebhookSignature → Fetched) (hmac : Text → Text → Text)
    (json : OutboundWebhookEvent → Text) (number_text : ℕ → Text) (message : Error → Text)
    (now : ℕ) where
  dispatch_rows-IsBounded :
      (rows : List DeliveryRecord) (d : WebhookDispatcher)
      → Claimed rows d.service
      → IsBounded d.service
      → let out = dispatch_rows fetch hmac json number_text message now rows d in
        ((n : ℕ) × (out.0 ≡ ok n)) × IsBounded out.1.service
  unfolding dispatch_rows
  dispatch_rows-IsBounded [] d c h = ((0, refl), h)
  dispatch_rows-IsBounded (row ∷ rows) d c h =
      let (b, f, a, result, service) =
        dispatch_row-Attempt fetch hmac json number_text message now row d c.0.0.0 in
      let d1 = (dispatch_row fetch hmac json number_text message now row d).1 in
      let ((n, rest), bounded) =
        dispatch_rows-IsBounded rows d1
          (rw service (attempted-Claimed now row f rows d.service a c))
          (rw service (attempted-IsBounded now row f d.service a c.0.0.1 c.0.0.0 h)) in
      rw (result, rest, dispatch_rows) ((_, refl), bounded)

  dispatch_claimed-IsBounded :
      (rows : List DeliveryRecord) (d : WebhookDispatcher)
      → Claimed rows d.service
      → IsBounded d.service
      → let out = dispatch_claimed fetch hmac json number_text message now rows d in
        ((n : ℕ) × (out.0 ≡ ok n)) × IsBounded out.1.service
  unfolding dispatch_claimed count_batch
  dispatch_claimed-IsBounded [] d c h = ((0, refl), h)
  dispatch_claimed-IsBounded (row ∷ rows) d c h =
      let ((n, ran), bounded) = dispatch_rows-IsBounded (row ∷ rows) d c h in
      let d1 = (dispatch_rows fetch hmac json number_text message now (row ∷ rows) d).1 in
      let rest : ℕ → Exec WebhookDispatcher ℕ = λ k. modify count_batch >> pure k in
      let run =
        >>=-of_ok (dispatch_rows fetch hmac json number_text message now (row ∷ rows)) rest d n d1
          (ap (λ (r : Result ℕ). (r, d1)) ran) in
      (
        (n, ap (λ (x : Result ℕ × WebhookDispatcher). x.0) run),
        rw (ap (λ (x : Result ℕ × WebhookDispatcher). x.1) run) bounded,
      )

-- Whatever the endpoints answer, a batch of the dispatcher returns, and keeps every delivery within
-- six attempts, and within five as long as it is neither delivered nor a dead letter; provided that
-- no other worker claims deliveries during the batch.
pub dispatch_batch-IsBounded :
    (fetch : DeliveryRecord → WebhookSignature → Fetched) (hmac : Text → Text → Text)
    (json : OutboundWebhookEvent → Text) (number_text : ℕ → Text) (message : Error → Text)
    (now limit : ℕ) (d : WebhookDispatcher)
    → IsBounded d.service
    → let out = dispatch_batch fetch hmac json number_text message alone now limit d in
      ((n : ℕ) × (out.0 ≡ ok n)) × IsBounded out.1.service
unfolding dispatch_batch
dispatch_batch-IsBounded fetch hmac json number_text message now limit d h =
    let (claimed, bounded) = claim_due_batch-Claimed now limit d.service h in
    dispatch_claimed-IsBounded fetch hmac json number_text message now
      (claim_due_batch alone now limit d.service).0
      (record d { service = (claim_due_batch alone now limit d.service).1 }) claimed bounded
