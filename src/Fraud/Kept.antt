-- ===== src/Fraud/Kept.antt =====
-- What the calls of `FraudService` on cases and signals keep of the tables
-- (packages/domain/fraud/src/fraud.service.ts).
use alice_uprm.Prelude.{
  ℕ, ◌+◌, ◌≡◌, refl, inl, inr, Bool, true, Option, some, List, [], ◌∷◌, arith, Bool-cases,
  Option-cases,
}
use alice_uprm.Prelude.Int.{ℤ, pos, leb_ℤ}
use alice_uprm.Prelude.Text.{Text, codes}
use alice_uprm.Prelude.Exec.{Result, Exec, pure, gets, ◌>>=◌, Keeps, >>=-Keeps}
use alice_uprm.Prelude.Rows.{find, update_where, find-any}
use alice_uprm.Prelude.Keyed.{by_id, HasIdsBelow-mono}
use alice_uprm.Fraud.Types.{
  allowed, rejected, escalated, FraudCaseStatus, FraudConfig, FraudActor, FraudSignalInput,
  RiskSignal, RiskCase, RewardHoldStatus, hold_active, hold_released, hold_rejected, RewardHold,
  Risk, FraudCaseDetail, RecordSignalResult, FraudCaseSummary,
}
use alice_uprm.Fraud.Views.{
  is_active_case_status, is_active_hold_status, case_id, is_active_case, is_active_hold_of,
}
use alice_uprm.Fraud.Config.{raise_severity}
use alice_uprm.Fraud.Cases.{
  as_resolved, release_holds, as_released, resolve_case, allow_case, as_rejected, reject_holds,
  reject_case, as_escalated, escalate, escalate_case,
}
use alice_uprm.Fraud.Signals.{
  is_key_taken, compute_rolling_score, CaseInput, ensure_open_case, case_input, create_signal,
  case_of_signal, record_new, record_enabled, find_signal,
}
use alice_uprm.Fraud.Fitting.{agrees, IsFitting, change-IsFitting}
use alice_uprm.Fraud.Opening.{open_new_case-IsFitting}
use alice_uprm.Fraud.Decisions.{
  Decided, F_allow, F_reject, F_escalate, f_escalate, allow_case-Decided, reject_case-Decided,
  escalate_case-Decided,
}

-- A decision keeps the tables fitting when its change does.
Decided-IsFitting :
    (id : ℕ) (F : RiskCase → Risk → Risk) (f : RiskCase → RiskCase) (s : Risk)
    (out : Result FraudCaseDetail × Risk)
    → Decided id F f s out
    → IsFitting s
    → ((c : RiskCase)
        → by_id case_id id s.cases ≡ some c
        → is_active_case_status c.status ≡ true
        → IsFitting (F c s))
    → IsFitting out.1
Decided-IsFitting id F f s out (inl (_, e, run)) h k = rw run h
Decided-IsFitting id F f s out (inr (c, found, active, run)) h k = rw run (k c found active)

was_active :
    (id : ℕ) (h : RewardHold)
    → is_active_hold_of id h ≡ true
    → is_active_hold_status h.status ≡ true
unfolding is_active_hold_of
was_active id h k = ground arith

active_agrees :
    (a : RewardHoldStatus) (t : FraudCaseStatus)
    → is_active_hold_status a ≡ true
    → is_active_case_status t ≡ true
    → agrees a t ≡ true
active_agrees hold_active t h k = k
active_agrees hold_released t h k = cc
active_agrees hold_rejected t h k = cc

update_where_same : (p : RewardHold → Bool) (hs : List RewardHold) → update_where p (λ h. h) hs ≡ hs
update_where_same p [] = refl
update_where_same p (h ∷ hs) = ground (arith, update_where_same p hs)

module _ (now id : ℕ) (actor : FraudActor) (note : Option Text) (s : Risk) (h : IsFitting s) where
  pub allow_case-IsFitting : IsFitting (allow_case now id actor note s).1
  unfolding resolve_case release_holds as_resolved
  allow_case-IsFitting =
      Decided-IsFitting id (F_allow now id actor note s)
        (as_resolved now allowed (codes "allow") note) s (allow_case now id actor note s)
        (allow_case-Decided now id actor note s) h
        (λ c found active.
          let k =
            change-IsFitting id c (as_resolved now allowed (codes "allow") note) (as_released now) s
              (λ x. refl) (λ x. (refl, refl)) (λ x. refl) found active (λ x _. refl) h in
          record { ids = k.ids; below = k.below; single = k.single; fits = k.fits })

  pub reject_case-IsFitting : IsFitting (reject_case now id actor note s).1
  unfolding resolve_case reject_holds as_resolved
  reject_case-IsFitting =
      Decided-IsFitting id (F_reject now id actor note s)
        (as_resolved now rejected (codes "reject") note) s (reject_case now id actor note s)
        (reject_case-Decided now id actor note s) h
        (λ c found active.
          let k =
            change-IsFitting id c (as_resolved now rejected (codes "reject") note) (as_rejected now)
              s (λ x. refl) (λ x. (refl, refl)) (λ x. refl) found active (λ x _. refl) h in
          record { ids = k.ids; below = k.below; single = k.single; fits = k.fits })

  pub escalate_case-IsFitting : IsFitting (escalate_case now id actor note s).1
  unfolding escalate as_escalated
  escalate_case-IsFitting =
      Decided-IsFitting id (F_escalate now id actor note s) (f_escalate now id actor note s) s
        (escalate_case now id actor note s) (escalate_case-Decided now id actor note s) h
        (λ c found active.
          let k =
            change-IsFitting id c (as_escalated note (raise_severity c.severity)) (λ x. x) s
              (λ x. refl) (λ x. (refl, refl)) (λ x. refl) found active
              (λ x mine. active_agrees x.status escalated (was_active id x mine) refl) h in
          record {
            ids = k.ids;
            below = k.below;
            single = k.single;
            fits = rw (update_where_same (is_active_hold_of id) s.holds) at k.fits;
          })

pub ensure_open_case-IsFitting :
    (now : ℕ) (input : CaseInput) (s : Risk)
    → IsFitting s
    → IsFitting (ensure_open_case now input s).1
unfolding ensure_open_case
ensure_open_case-IsFitting now input s h =
    elim (Option-cases (find (is_active_case input.tenant_id input.tenant_user_id) s.cases)) [
      | inr (c, found) ↦ rw (found, ensure_open_case) h
      | inl free ↦
          rw (free, ensure_open_case)
            (open_new_case-IsFitting now input s h (find-any _ s.cases free))
    ]

create_signal-IsFitting :
    (now : ℕ) (config : FraudConfig) (input : FraudSignalInput)
    → Keeps IsFitting (create_signal now config input)
unfolding create_signal
create_signal-IsFitting now config input s h =
    elim (Bool-cases (is_key_taken input.tenant_id input.dedupe_key s)) [
      | inl taken ↦ rw (taken, create_signal) h
      | inr free ↦
          rw (free, create_signal)
            (record {
              ids = h.ids;
              below =
                  HasIdsBelow-mono case_id s.next_id (s.next_id + 1) s.cases (omega arith) h.below;
              single = h.single;
              fits = h.fits;
            })
    ]

case_of_signal-IsFitting :
    (now : ℕ) (config : FraudConfig) (g : RiskSignal) (score : ℤ)
    → Keeps IsFitting (case_of_signal now config g score)
unfolding case_of_signal
case_of_signal-IsFitting now config g score s h = elim (Option-cases g.tenant_user_id) [
  | inl nobody ↦ rw (nobody, case_of_signal) h
  | inr (u, user) ↦ elim (Bool-cases (leb_ℤ (pos config.case_threshold) score)) [
    | inl reached ↦
        rw (user, reached, case_of_signal)
          (>>=-Keeps IsFitting (ensure_open_case now (case_input config g u score))
            (λ c. pure (some c)) (ensure_open_case-IsFitting now (case_input config g u score))
            (λ c t k. k) s h)
    | inr below ↦ rw (user, below, case_of_signal) h
  ]
]

record_new-IsFitting :
    (now : ℕ) (config : FraudConfig) (input : FraudSignalInput)
    → Keeps IsFitting (record_new now config input)
unfolding record_new
record_new-IsFitting now config input =
    >>=-Keeps IsFitting (create_signal now config input)
      (λ g.
        gets (compute_rolling_score input.tenant_id g.tenant_user_id config g.created_at)
        >>= with_score g)
      (create_signal-IsFitting now config input)
      (λ g.
        >>=-Keeps IsFitting
          (gets (compute_rolling_score input.tenant_id g.tenant_user_id config g.created_at))
          (with_score g) (λ t k. k) (with_score-IsFitting g))
  where
    result : RiskSignal → ℤ → Option FraudCaseSummary → RecordSignalResult
    result g score opened = record { signal = g; case_opened = opened; rolling_score = score }

    with_score : RiskSignal → ℤ → Exec Risk RecordSignalResult
    with_score g score =
        case_of_signal now config g score >>= λ opened. pure (result g score opened)

    with_score-IsFitting : (g : RiskSignal) (score : ℤ) → Keeps IsFitting (with_score g score)
    with_score-IsFitting g score =
        >>=-Keeps IsFitting (case_of_signal now config g score)
          (λ opened. pure (result g score opened)) (case_of_signal-IsFitting now config g score)
          (λ opened t k. k)

pub record_enabled-IsFitting :
    (now : ℕ) (config : FraudConfig) (input : FraudSignalInput)
    → Keeps IsFitting (record_enabled now config input)
unfolding record_enabled
record_enabled-IsFitting now config input s h =
    elim (Option-cases (find_signal input.tenant_id input.dedupe_key s)) [
      | inr (g, known) ↦ rw (known, record_enabled) h
      | inl new ↦ rw (new, record_enabled) (record_new-IsFitting now config input s h)
    ]
