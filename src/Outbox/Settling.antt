-- ===== src/Outbox/Settling.antt =====
-- The loop of a batch of the relay, message by message
-- (packages/domain/outbox/src/relay.service.ts).
use alice_uprm.Prelude.{
  ℕ, ◌+◌, ◌≡◌, refl, ap, ◌∙◌, ◌≢◌, inl, inr, Bool, true, false, Option, none, some, List, [], ◌∷◌,
  arith, ◌==◌, if◌then◌else◌, ==_iff, Bool-cases, All, All-imp, take,
}
use alice_uprm.Prelude.Text.{Text, codes}
use alice_uprm.Prelude.Exec.{
  Error, Result, ok, err, Exec, pure, ◌>>◌, modify, try_catch, try_catch-of_ok, >>=-of_ok,
}
use alice_uprm.Prelude.Keyed.{by_id, update_id, HasDistinctIds, by_id-none, by_id-update_id}
use alice_uprm.Outbox.Relay.{
  OutboxMessage, pending, dispatched, Relay, Published, sent, failed_with, message_id,
  update_message, as_dispatched, as_failed, count_dispatched, count_failed, on_failure, on_success,
  dispatch, dispatch_all,
}

-- What becomes of a message that is handed to the publisher, field by field.
abbrev pub settled : ℕ → Published → OutboxMessage → OutboxMessage
settled now sent m = record m { status = dispatched; dispatched_at = some now }
settled now (failed_with reason) m = record m {
  status = pending;
  attempts = m.attempts + 1;
  last_error = some (take 256 (elim reason [ none ↦ codes "publish failed" | some text ↦ text ]));
}

settled-id : (now : ℕ) (p : Published) (m : OutboxMessage) → (settled now p m).id ≡ m.id
settled-id now sent m = refl
settled-id now (failed_with reason) m = refl

abbrev pub IsThere : Relay → OutboxMessage → Type 0
IsThere s m = (x : OutboxMessage) × (by_id message_id m.id s.messages ≡ some x)

-- A step that returns, with its messages changed under one id.
abbrev Ran : Exec Relay Bool → Relay → ℕ → (OutboxMessage → OutboxMessage) → Type 0
Ran m s id f =
    (b : Bool) × (s' : Relay) × (m s ≡ (ok b, s'))
    × (s'.messages ≡ update_id message_id id f s.messages)

module _ (id : ℕ) (s : Relay) (x : OutboxMessage)
    (found : by_id message_id id s.messages ≡ some x) where
  update-run :
      (f : OutboxMessage → OutboxMessage)
      → update_message id f s
        ≡ (ok tt, record s { messages = update_id message_id id f s.messages })
  unfolding update_message
  update-run f = rw (found, update_message) refl

  on_failure-Ran :
      (reason : Option Text) → Ran (on_failure id reason) s id (settled 0 (failed_with reason))
  unfolding on_failure count_failed as_failed
  on_failure-Ran reason = (
    false,
    _,
    >>=-of_ok (update_message id (as_failed reason)) (λ _. modify count_failed >> pure false) s tt _
        (update-run (as_failed reason)),
    refl,
  )

  on_success-run :
      (now : ℕ)
      → on_success now id s ≡ (
        ok true,
        count_dispatched
            (record s { messages = update_id message_id id (settled now sent) s.messages }),
      )
  unfolding on_success as_dispatched
  on_success-run now =
      >>=-of_ok (update_message id (as_dispatched now)) (λ _. modify count_dispatched >> pure true)
        s tt _ (update-run (as_dispatched now))

module _ (publish : OutboxMessage → Published) (message : Error → Text) (now : ℕ) where
  abbrev recover : OutboxMessage → Error → Exec Relay Bool
  recover m e = on_failure m.id (some (message e))

  abbrev answered : OutboxMessage → Published → Exec Relay Bool
  answered m p = elim p [
    | failed_with reason ↦ on_failure m.id reason
    | sent ↦ try_catch (on_success now m.id) (recover m)
  ]

  dispatch-Ran :
      (m : OutboxMessage) (s : Relay)
      → IsThere s m
      → Ran (dispatch publish message now m) s m.id (settled now (publish m))
  unfolding dispatch count_dispatched
  dispatch-Ran m s (x, found) = go (publish m)
    where
      go : (p : Published) → Ran (answered m p) s m.id (settled now p)
      go (failed_with reason) = on_failure-Ran m.id s x found reason
      go sent = (
        true,
        _,
        try_catch-of_ok (on_success now m.id) (recover m) s true _
            (on_success-run m.id s x found now),
        refl,
      )

  -- What the messages of a loop become.
  abbrev pub Settles : List OutboxMessage → Relay → Relay → Type 0
  Settles ms s s' =
      (i : ℕ) (x : OutboxMessage)
      → by_id message_id i s.messages ≡ some x
      → by_id message_id i s'.messages
        ≡ some (elim (by_id message_id i ms) [ none ↦ x | some m ↦ settled now (publish m) x ])

  found_after :
      (m : OutboxMessage) (s s1 : Relay) (i : ℕ) (x : OutboxMessage)
      → s1.messages ≡ update_id message_id m.id (settled now (publish m)) s.messages
      → by_id message_id i s.messages ≡ some x
      → by_id message_id i s1.messages ≡ some (if i == m.id then settled now (publish m) x else x)
  found_after m s s1 i x changed found =
      let one =
        by_id-update_id message_id (settled now (publish m)) (settled-id now (publish m)) i m.id
          s.messages in
      elim (Bool-cases (i == m.id)) [
        | inl here ↦ rw (changed, here) (one ∙ rw (here, found) refl)
        | inr other ↦ rw (changed, other) (one ∙ rw (other, found) refl)
      ]

  still-IsThere :
      (m : OutboxMessage) (ms : List OutboxMessage) (s s1 : Relay)
      → s1.messages ≡ update_id message_id m.id (settled now (publish m)) s.messages
      → All (IsThere s) ms
      → All (IsThere s1) ms
  still-IsThere m ms s s1 changed there =
      All-imp (IsThere s) (IsThere s1) ms (λ y k. (_, found_after m s s1 y.id k.0 changed k.1))
        there

  step :
      (m : OutboxMessage) (ms : List OutboxMessage) (s s1 s2 : Relay)
      → All (λ y. y.id ≢ m.id) ms
      → s1.messages ≡ update_id message_id m.id (settled now (publish m)) s.messages
      → Settles ms s1 s2
      → Settles (m ∷ ms) s s2
  step m ms s s1 s2 apart changed settles i x found =
      let after = found_after m s s1 i x changed found in
      elim (Bool-cases (i == m.id)) [
        | inl here ↦
            let e : i ≡ m.id = (==_iff i m.id).0 here in
            let own : (m.id == i) ≡ true = ground arith in
            let once : by_id message_id i ms ≡ none = rw e (by_id-none message_id m.id ms apart) in
            rw own (settles i (settled now (publish m) x) (rw here at after) ∙ rw once refl)
        | inr other ↦
            let apart_id : (m.id == i) ≡ false = ground arith in
            rw apart_id (settles i x (rw other at after))
      ]

  abbrev counted : Bool → Result ℕ × Relay → Result ℕ × Relay
  counted hit z = (elim z.0 [ ok k ↦ ok (if hit then k + 1 else k) | err e ↦ err e ], z.1)

  abbrev after_first : List OutboxMessage → Result Bool × Relay → Result ℕ × Relay
  after_first ms y = elim y.0 [
    | err e ↦ (err e, y.1)
    | ok hit ↦ counted hit (dispatch_all publish message now ms y.1)
  ]

  dispatch_all-step :
      (m : OutboxMessage) (ms : List OutboxMessage) (s s1 s2 : Relay) (b : Bool) (n : ℕ)
      → dispatch publish message now m s ≡ (ok b, s1)
      → dispatch_all publish message now ms s1 ≡ (ok n, s2)
      → dispatch_all publish message now (m ∷ ms) s ≡ (ok (if b then n + 1 else n), s2)
  unfolding dispatch_all
  dispatch_all-step m ms s s1 s2 b n ran rest = ap (after_first ms) ran ∙ ap (counted b) rest

  pub dispatch_all-Settles :
      (ms : List OutboxMessage) (s : Relay)
      → HasDistinctIds message_id ms
      → All (IsThere s) ms
      → (n : ℕ) × (s' : Relay) × (dispatch_all publish message now ms s ≡ (ok n, s'))
        × Settles ms s s'
  unfolding dispatch_all
  dispatch_all-Settles [] s distinct there = (0, s, refl, λ i x found. found)
  dispatch_all-Settles (m ∷ ms) s distinct there =
      let (b, s1, ran, changed) = dispatch-Ran m s there.0 in
      let (n, s2, rest, settles) =
        dispatch_all-Settles ms s1 distinct.1 (still-IsThere m ms s s1 changed there.1) in
      (
        (if b then n + 1 else n),
        s2,
        dispatch_all-step m ms s s1 s2 b n ran rest,
        step m ms s s1 s2 distinct.0 changed settles,
      )
