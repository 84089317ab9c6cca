-- ===== src/Payouts/Transitions.antt =====
-- The status of a payout request as a state machine
-- (packages/domain/payouts/src/payout.service.ts).
use alice_uprm.Prelude.{
  ℕ, ◌≡◌, refl, sym, ap, ◌∙◌, inl, inr, Bool, true, ◌||◌, Option, some, ◌==◌, ==_iff, Bool-cases,
}
use alice_uprm.Prelude.Text.{Text}
use alice_uprm.Prelude.Exec.{Exec, pure}
use alice_uprm.Prelude.Keyed.{by_id, by_id-update_id}
use alice_uprm.Ledger.Types.{Ledger}
use alice_uprm.Payouts.Types.{
  PayoutStatus, requested, approved, sent, failed, cancelled, PayoutRequest, Platform,
}
use alice_uprm.Payouts.Requests.{
  payout_id, is_requested, is_approved, approve_payout, execute_payout, mark_sent, return_credits,
  fail_payout, cancel_payout,
}
use alice_uprm.Payouts.Calls.{
  Keeps, Left, call, call-Left, execute_payout-Keeps, return_credits-Keeps,
}

-- The steps of the life of a payout request.
pub data Step : PayoutStatus → PayoutStatus → Type 0 where
  stays : {a : PayoutStatus} → Step a a
  approves : Step requested approved
  sends : Step approved sent
  fails_early : Step requested failed
  fails_late : Step approved failed
  cancels : Step requested cancelled

-- Every request is still there, and its status went one step at most.
abbrev pub FollowsSteps : Platform → Platform → Type 0
FollowsSteps s s' =
    (j : ℕ) (p : PayoutRequest)
    → by_id payout_id j s.payouts ≡ some p
    → (p' : PayoutRequest) × (by_id payout_id j s'.payouts ≡ some p') × Step p.status p'.status

Left-FollowsSteps :
    (accepts : PayoutStatus → Bool) (id : ℕ) (f : PayoutRequest → PayoutRequest) (s s' : Platform)
    → ((p : PayoutRequest) → (f p).id ≡ p.id)
    → ((p : PayoutRequest) → accepts p.status ≡ true → Step p.status (f p).status)
    → Left accepts id f s s'
    → FollowsSteps s s'
Left-FollowsSteps accepts id f s s' keeps steps (inl same) j p found =
    (p, rw same found, Step.stays)
Left-FollowsSteps accepts id f s s' keeps steps (inr (q, there, good, table)) j p found =
    let look = ap (by_id payout_id j) table ∙ by_id-update_id payout_id f keeps j id s.payouts in
    elim (Bool-cases (j == id)) [
      | inl this ↦
          let at_id : j ≡ id = (==_iff j id).0 this in
          let twice : some q ≡ some p =
            sym there ∙ ap (λ i. by_id payout_id i s.payouts) (sym at_id) ∙ found in
          let q_p : q ≡ p = cc in (f p, look ∙ rw (this, found), steps p (rw q_p at good))
      | inr other ↦ (p, look ∙ rw (other, found), Step.stays)
    ]

nothing-Keeps : (p : PayoutRequest) → Keeps (pure {S = Platform} {A = Unit {0}} tt)
nothing-Keeps p = record { kept = λ s. refl }

module _ (now id : ℕ) where
  approve_payout-FollowsSteps : (s : Platform) → FollowsSteps s (approve_payout now id s).1
  unfolding approve_payout
  approve_payout-FollowsSteps s =
      Left-FollowsSteps is_requested id f s
        (call is_requested id f (λ p. pure {S = Platform} {A = Unit {0}} tt) s).1 (λ p. refl) steps
        (call-Left is_requested id f (λ p. pure {S = Platform} {A = Unit {0}} tt) nothing-Keeps s)
    where
      f : PayoutRequest → PayoutRequest
      f p = record p { status = approved; approved_at = some now }

      step : (a : PayoutStatus) → is_requested a ≡ true → Step a approved
      step requested h = Step.approves
      step approved h = absurd (cc)
      step sent h = absurd (cc)
      step failed h = absurd (cc)
      step cancelled h = absurd (cc)

      steps : (p : PayoutRequest) → is_requested p.status ≡ true → Step p.status approved
      steps p h = step p.status h

  cancel_payout-FollowsSteps : (s : Platform) → FollowsSteps s (cancel_payout now id s).1
  unfolding cancel_payout
  cancel_payout-FollowsSteps s =
      Left-FollowsSteps is_requested id f s (call is_requested id f return_credits s).1 (λ p. refl)
        steps (call-Left is_requested id f return_credits return_credits-Keeps s)
    where
      f : PayoutRequest → PayoutRequest
      f p = record p { status = cancelled; cancelled_at = some now }

      step : (a : PayoutStatus) → is_requested a ≡ true → Step a cancelled
      step requested h = Step.cancels
      step approved h = absurd (cc)
      step sent h = absurd (cc)
      step failed h = absurd (cc)
      step cancelled h = absurd (cc)

      steps : (p : PayoutRequest) → is_requested p.status ≡ true → Step p.status cancelled
      steps p h = step p.status h

  abbrev is_pending : PayoutStatus → Bool
  is_pending a = is_requested a || is_approved a

  fail_payout-FollowsSteps :
      (reason : Option Text) (s : Platform) → FollowsSteps s (fail_payout now reason id s).1
  unfolding fail_payout
  fail_payout-FollowsSteps reason s =
      Left-FollowsSteps is_pending id f s (call is_pending id f return_credits s).1 (λ p. refl)
        steps (call-Left is_pending id f return_credits return_credits-Keeps s)
    where
      f : PayoutRequest → PayoutRequest
      f p = record p { status = failed; failure_reason = reason; failed_at = some now }

      step : (a : PayoutStatus) → is_pending a ≡ true → Step a failed
      step requested h = Step.fails_early
      step approved h = Step.fails_late
      step sent h = absurd (cc)
      step failed h = absurd (cc)
      step cancelled h = absurd (cc)

      steps : (p : PayoutRequest) → is_pending p.status ≡ true → Step p.status failed
      steps p h = step p.status h

  mark_sent-FollowsSteps :
      (id_text : ℕ → Text) (others : Ledger → Ledger) (s : Platform)
      → FollowsSteps s (mark_sent id_text others now id s).1
  unfolding mark_sent
  mark_sent-FollowsSteps id_text others s =
      Left-FollowsSteps is_approved id f s
        (call is_approved id f (execute_payout id_text others) s).1 (λ p. refl) steps
        (call-Left is_approved id f (execute_payout id_text others)
          (execute_payout-Keeps id_text others) s)
    where
      f : PayoutRequest → PayoutRequest
      f p = record p { status = sent; sent_at = some now }

      step : (a : PayoutStatus) → is_approved a ≡ true → Step a sent
      step approved h = Step.sends
      step requested h = absurd (cc)
      step sent h = absurd (cc)
      step failed h = absurd (cc)
      step cancelled h = absurd (cc)

      steps : (p : PayoutRequest) → is_approved p.status ≡ true → Step p.status sent
      steps p h = step p.status h

-- A call of `approvePayout`, `markSent`, `failPayout` or `cancelPayout`.
pub data IsCall (id_text : ℕ → Text) : Exec Platform PayoutRequest → Type 1 where
  approval : (now id : ℕ) → IsCall id_text (approve_payout now id)
  sending :
      (others : Ledger → Ledger) (now id : ℕ) → IsCall id_text (mark_sent id_text others now id)
  failure : (now : ℕ) (reason : Option Text) (id : ℕ) → IsCall id_text (fail_payout now reason id)
  cancellation : (now id : ℕ) → IsCall id_text (cancel_payout now id)

-- Approving, sending, failing and cancelling a payout, whether they return or throw, keep every
-- payout request in its table and take its status at most one step: from requested to approved, failed
-- or cancelled, or from approved to sent or failed. So a request that was sent, failed or cancelled
-- stays so.
pub IsCall-FollowsSteps :
    (id_text : ℕ → Text) (c : Exec Platform PayoutRequest)
    → IsCall id_text c
    → (s : Platform) → FollowsSteps s (c s).1
IsCall-FollowsSteps id_text _ (IsCall.approval now id) s = approve_payout-FollowsSteps now id s
IsCall-FollowsSteps id_text _ (IsCall.sending others now id) s =
    mark_sent-FollowsSteps now id id_text others s
IsCall-FollowsSteps id_text _ (IsCall.failure now reason id) s =
    fail_payout-FollowsSteps now id reason s
IsCall-FollowsSteps id_text _ (IsCall.cancellation now id) s = cancel_payout-FollowsSteps now id s
