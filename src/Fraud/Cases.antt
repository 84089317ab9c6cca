-- ===== src/Fraud/Cases.antt =====
-- The cases of `FraudService` (packages/domain/fraud/src/fraud.service.ts). `now` is the clock of the
-- call.
use alice_uprm.Prelude.{
  ℕ, Bool, ◌&&◌, Option, none, some, List, [], ◌∷◌, ◌++◌, ◌==◌, if◌then◌else◌, take,
}
use alice_uprm.Prelude.Text.{Text, codes}
use alice_uprm.Prelude.Exec.{Error, ok, err, Exec, transaction, ◌>>=◌, ◌>>◌, modify}
use alice_uprm.Prelude.Rows.{find, update_where, any}
use alice_uprm.Prelude.Keyed.{by_id, update_id}
use alice_uprm.Fraud.Types.{
  FraudCaseStatus, allowed, rejected, escalated, FraudSeverity, FraudActor, RiskCase, CaseState,
  RiskCaseEvent, hold_released, hold_rejected, RewardHold, cancelled, HeldPosting, Risk,
  FraudCaseDetail,
}
use alice_uprm.Fraud.Config.{raise_severity}
use alice_uprm.Fraud.Views.{
  is_active_case_status, is_active_hold_status, is_pending_status, case_id, is_active_hold_of,
  get_case,
}

abbrev pub add_event : RiskCaseEvent → Risk → Risk
add_event e s = record s { events = s.events ++ e ∷ [] }

abbrev pub state_of : FraudCaseStatus → CaseState
state_of status = record {
  status = status;
  severity = none;
  resolution = none;
  score_total = none;
  hold_count = none;
  note = none;
}

-- The case, which has to be active.
unfoldable pub require_active : ℕ → Exec Risk RiskCase
require_active id s = elim (by_id case_id id s.cases) [
  | none ↦ (err Error.risk_case_not_found, s)
  | some c ↦ if is_active_case_status c.status then (ok c, s) else (err Error.risk_case_not_open, s)
]

-- The detail that is returned after the transaction.
unfoldable pub detail_after : ℕ → Exec Risk FraudCaseDetail
detail_after id s = elim (get_case id s) [
  | none ↦ (err Error.risk_case_not_found, s)
  | some d ↦ (ok d, s)
]

unfoldable pub as_resolved : ℕ → FraudCaseStatus → Text → Option Text → RiskCase → RiskCase
as_resolved now status resolution note c = record c {
  status = status;
  resolution = some resolution;
  resolution_note = note;
  resolved_at = some now;
}

unfoldable pub resolved_event :
    ℕ → ℕ → FraudActor → FraudCaseStatus → FraudCaseStatus → Text → Option Text → RiskCaseEvent
resolved_event now id actor old status resolution note = record {
  risk_case_id = id;
  actor = actor;
  action = resolution;
  before = some (state_of old);
  after = record (state_of status) { resolution = some resolution; note = note };
  created_at = now;
}

abbrev pub as_released : ℕ → RewardHold → RewardHold
as_released now h = record h { status = hold_released; released_at = some now }

unfoldable pub release_holds : ℕ → ℕ → Risk → Risk
release_holds now id s = record s {
  holds = update_where (is_active_hold_of id) (as_released now) s.holds;
}

unfoldable pub resolve_case :
    ℕ → ℕ → FraudActor → FraudCaseStatus → FraudCaseStatus → Text → Option Text → Risk → Risk
resolve_case now id actor old status resolution note s =
    add_event (resolved_event now id actor old status resolution note)
      (record s { cases = update_id case_id id (as_resolved now status resolution note) s.cases })

unfoldable pub allow_case : ℕ → ℕ → FraudActor → Option Text → Exec Risk FraudCaseDetail
allow_case now id actor note = do
  transaction (do
    c ← require_active id
    modify (λ s.
        resolve_case now id actor c.status allowed (codes "allow") note (release_holds now id s)))
  detail_after id

abbrev pub as_rejected : ℕ → RewardHold → RewardHold
as_rejected now h = record h { status = hold_rejected; rejected_at = some now }

unfoldable pub is_held_posting : ℕ → List RewardHold → HeldPosting → Bool
is_held_posting id holds p =
    any (λ h. is_active_hold_of id h && h.scheduled_posting_id == p.id) holds
    && is_pending_status p.status

unfoldable pub as_cancelled : Option Text → HeldPosting → HeldPosting
as_cancelled note p = record p {
  status = cancelled;
  cancel_reason = some (elim note [ none ↦ codes "fraud_case_rejected" | some t ↦ take 256 t ]);
}

-- The `updateMany` over no postings changes none, so that the test on the number of holds is left out.
unfoldable pub reject_holds : ℕ → ℕ → Option Text → Risk → Risk
reject_holds now id note s = record s {
  postings = update_where (is_held_posting id s.holds) (as_cancelled note) s.postings;
  holds = update_where (is_active_hold_of id) (as_rejected now) s.holds;
}

unfoldable pub reject_case : ℕ → ℕ → FraudActor → Option Text → Exec Risk FraudCaseDetail
reject_case now id actor note = do
  transaction (do
    c ← require_active id
    modify (λ s.
        resolve_case now id actor c.status rejected (codes "reject") note
          (reject_holds now id note s)))
  detail_after id

unfoldable pub as_escalated : Option Text → FraudSeverity → RiskCase → RiskCase
as_escalated note severity c = record c {
  status = escalated;
  severity = severity;
  resolution = some (codes "escalate");
  resolution_note = note;
}

unfoldable pub escalated_event : ℕ → ℕ → FraudActor → RiskCase → Option Text → RiskCaseEvent
escalated_event now id actor c note = record {
  risk_case_id = id;
  actor = actor;
  action = codes "escalate";
  before = some (record (state_of c.status) { severity = some c.severity });
  after = record (state_of escalated) { severity = some (raise_severity c.severity); note = note };
  created_at = now;
}

unfoldable pub escalate : ℕ → ℕ → FraudActor → Option Text → RiskCase → Risk → Risk
escalate now id actor note c s = add_event (escalated_event now id actor c note) (record s {
  cases = update_id case_id id (as_escalated note (raise_severity c.severity)) s.cases;
})

unfoldable pub escalate_case : ℕ → ℕ → FraudActor → Option Text → Exec Risk FraudCaseDetail
escalate_case now id actor note = do
  transaction (do c ← require_active id; modify (λ s. escalate now id actor note c s))
  detail_after id

unfoldable pub get_active_hold : ℕ → Risk → Option RewardHold
get_active_hold posting_id s =
    find (λ h. h.scheduled_posting_id == posting_id && is_active_hold_status h.status) s.holds
