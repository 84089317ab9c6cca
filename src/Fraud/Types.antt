-- ===== src/Fraud/Types.antt =====
-- The tables of `FraudService` (packages/domain/fraud/src/types.ts and
-- packages/db/prisma/schema.prisma). A JSON column is the text of its value, but where the service
-- writes the value itself.
use alice_uprm.Prelude.{ℕ, Bool, Option, List}
use alice_uprm.Prelude.Int.{ℤ}
use alice_uprm.Prelude.Text.{Text}

pub data FraudSignalType : Type 0 where
  same_ip_multiple_signups same_payment_fingerprint referral_velocity : FraudSignalType
  self_referral_attempt high_refund_ratio_cluster : FraudSignalType

pub data FraudCaseStatus : Type 0 where
  open_case allowed rejected escalated : FraudCaseStatus

pub data FraudSeverity : Type 0 where
  low medium high critical : FraudSeverity

pub data RewardHoldStatus : Type 0 where
  hold_active hold_released hold_rejected : RewardHoldStatus

pub record FraudConfig : Type 0 where
  pub enabled : Bool
  pub case_threshold : ℕ
  pub score_window_hours : ℕ
  pub velocity_window_minutes : ℕ
  pub velocity_referral_count_threshold : ℕ
  pub refund_ratio_window_days : ℕ
  pub refund_ratio_threshold : Text
  pub cluster_window_days : ℕ
  pub signal_weights : FraudSignalType → ℕ

pub data ActorType : Type 0 where
  system admin : ActorType

pub record FraudActor : Type 0 where
  pub actor_type : ActorType
  pub actor_id : Option ℕ

pub record FraudSignalInput : Type 0 where
  pub tenant_id : ℕ
  pub tenant_user_id : Option ℕ
  pub signal_type : FraudSignalType
  pub score : Option ℤ
  pub source_event_id : Option ℕ
  pub dedupe_key : Option Text
  pub metadata : Text
  pub created_at : Option ℕ

pub record RiskSignal : Type 0 where
  pub id : ℕ
  pub tenant_id : ℕ
  pub tenant_user_id : Option ℕ
  pub signal_type : FraudSignalType
  pub score : ℤ
  pub severity : FraudSeverity
  pub status : Text
  pub dedupe_key : Option Text
  pub source_event_id : Option ℕ
  pub metadata : Text
  pub created_at : ℕ

pub record ThresholdSnapshot : Type 0 where
  pub case_threshold : ℕ
  pub score_window_hours : ℕ
  pub signal_weights : FraudSignalType → ℕ

-- The user may be null in the table, but every case is opened with one.
pub record RiskCase : Type 0 where
  pub id : ℕ
  pub tenant_id : ℕ
  pub tenant_user_id : ℕ
  pub status : FraudCaseStatus
  pub severity : FraudSeverity
  pub score_total : ℤ
  pub threshold_snapshot : ThresholdSnapshot
  pub resolution : Option Text
  pub resolution_note : Option Text
  pub opened_by_signal_id : Option ℕ
  pub opened_at : ℕ
  pub resolved_at : Option ℕ

-- What the events of a case keep of it.
pub record CaseState : Type 0 where
  pub status : FraudCaseStatus
  pub severity : Option FraudSeverity
  pub resolution : Option Text
  pub score_total : Option ℤ
  pub hold_count : Option ℕ
  pub note : Option Text

pub record RiskCaseEvent : Type 0 where
  pub risk_case_id : ℕ
  pub actor : FraudActor
  pub action : Text
  pub before : Option CaseState
  pub after : CaseState
  pub created_at : ℕ

pub record RewardHold : Type 0 where
  pub id : ℕ
  pub tenant_id : ℕ
  pub tenant_user_id : ℕ
  pub scheduled_posting_id : ℕ
  pub risk_case_id : ℕ
  pub status : RewardHoldStatus
  pub reason_code : Text
  pub created_at : ℕ
  pub released_at : Option ℕ
  pub rejected_at : Option ℕ

pub data PostingStatus : Type 0 where
  pending processing posted cancelled : PostingStatus

-- The columns of a scheduled posting that the holds read and write.
pub record HeldPosting : Type 0 where
  pub id : ℕ
  pub tenant_id : ℕ
  pub beneficiary_id : Option ℕ
  pub status : PostingStatus
  pub cancel_reason : Option Text

pub record Risk : Type 0 where
  pub signals : List RiskSignal
  pub cases : List RiskCase
  pub events : List RiskCaseEvent
  pub holds : List RewardHold
  pub postings : List HeldPosting
  pub next_id : ℕ

pub record FraudCaseSummary : Type 0 where
  pub risk_case : RiskCase
  pub hold_count : ℕ

pub record FraudCaseDetail : Type 0 where
  pub summary : FraudCaseSummary
  pub opened_by_signal : Option RiskSignal
  pub events : List RiskCaseEvent
  pub reward_holds : List RewardHold
  pub related_signals : List RiskSignal

pub record RecordSignalResult : Type 0 where
  pub signal : RiskSignal
  pub case_opened : Option FraudCaseSummary
  pub rolling_score : ℤ
