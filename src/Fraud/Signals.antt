-- ===== src/Fraud/Signals.antt =====
-- Signals and the opening of cases in `FraudService` (packages/domain/fraud/src/fraud.service.ts).
-- `parsed` is what the schema reads from the configuration of a tenant.
use alice_uprm.Prelude.{
  ℕ, ◌+◌, ◌*◌, Bool, false, ◌&&◌, Option, none, some, List, [], ◌∷◌, ◌++◌, leb, ◌==◌, if◌then◌else◌,
  length,
}
use alice_uprm.Prelude.Int.{ℤ, pos, leb_ℤ}
use alice_uprm.Prelude.Text.{Text, codes, text_eq}
use alice_uprm.Prelude.Exec.{Error, Result, ok, err, Exec, pure, gets, lift, ◌>>=◌}
use alice_uprm.Prelude.Rows.{find, filter, any, sum_by}
use alice_uprm.Fraud.Types.{
  open_case, FraudConfig, system, FraudActor, FraudSignalInput, RiskSignal, RiskCase, RiskCaseEvent,
  hold_active, RewardHold, HeldPosting, Risk, FraudCaseSummary, RecordSignalResult,
}
use alice_uprm.Fraud.Config.{ParsedFraudConfig, value_or, parse_fraud_config, score_to_severity}
use alice_uprm.Fraud.Views.{is_pending_status, is_active_case, to_case_summary, holds_of}
use alice_uprm.Fraud.Cases.{state_of, add_event}

abbrev pub has_user : ℕ → Option ℕ → Bool
has_user u none = false
has_user u (some v) = v == u

-- `createdAt: { gte: now - window }`
unfoldable pub is_recent : ℕ → ℕ → FraudConfig → ℕ → RiskSignal → Bool
is_recent tenant_id user_id config now g =
    g.tenant_id == tenant_id
    && has_user user_id g.tenant_user_id
    && text_eq g.status (codes "active")
    && leb now (g.created_at + config.score_window_hours * 60 * 60 * 1000)

unfoldable pub compute_rolling_score : ℕ → Option ℕ → FraudConfig → ℕ → Risk → ℤ
compute_rolling_score tenant_id none config now s = pos 0
compute_rolling_score tenant_id (some u) config now s =
    sum_by (λ g. g.score) (filter (is_recent tenant_id u config now) s.signals)

pub record CaseInput : Type 0 where
  pub tenant_id : ℕ
  pub tenant_user_id : ℕ
  pub score_total : ℤ
  pub config : FraudConfig
  pub signal_id : Option ℕ
  pub actor : FraudActor
  pub note : Option Text

unfoldable pub case_row : ℕ → ℕ → CaseInput → RiskCase
case_row now id input = record {
  id = id;
  tenant_id = input.tenant_id;
  tenant_user_id = input.tenant_user_id;
  status = open_case;
  severity = score_to_severity input.score_total;
  score_total = input.score_total;
  threshold_snapshot = record {
    case_threshold = input.config.case_threshold;
    score_window_hours = input.config.score_window_hours;
    signal_weights = input.config.signal_weights;
  };
  resolution = none;
  resolution_note = none;
  opened_by_signal_id = input.signal_id;
  opened_at = now;
  resolved_at = none;
}

unfoldable pub is_pending_reward : CaseInput → HeldPosting → Bool
is_pending_reward input p =
    p.tenant_id == input.tenant_id
    && has_user input.tenant_user_id p.beneficiary_id
    && is_pending_status p.status

unfoldable pub hold_row : ℕ → ℕ → CaseInput → ℕ → HeldPosting → RewardHold
hold_row now id input case p = record {
  id = id;
  tenant_id = p.tenant_id;
  tenant_user_id = input.tenant_user_id;
  scheduled_posting_id = p.id;
  risk_case_id = case;
  status = hold_active;
  reason_code = codes "fraud_case_opened";
  created_at = now;
  released_at = none;
  rejected_at = none;
}

-- `createMany` with `skipDuplicates`: a posting has one hold.
unfoldable pub add_holds : ℕ → CaseInput → ℕ → List HeldPosting → Risk → Risk
add_holds now input case [] s = s
add_holds now input case (p ∷ ps) s = add_holds now input case ps (
    if any (λ h. h.scheduled_posting_id == p.id) s.holds then s else record s {
      holds = s.holds ++ hold_row now s.next_id input case p ∷ [];
      next_id = s.next_id + 1;
    })

unfoldable pub open_event : ℕ → RiskCase → CaseInput → ℕ → RiskCaseEvent
open_event now c input hold_count = record {
  risk_case_id = c.id;
  actor = input.actor;
  action = codes "open";
  before = none;
  after = record (state_of open_case) {
    severity = some c.severity;
    score_total = some c.score_total;
    hold_count = some hold_count;
    note = input.note;
  };
  created_at = now;
}

unfoldable pub open_new_case : ℕ → CaseInput → Risk → FraudCaseSummary × Risk
open_new_case now input s =
    let c = case_row now s.next_id input in
    let pending_rewards = filter (is_pending_reward input) s.postings in
    let held =
      add_holds now input s.next_id pending_rewards
        (record s { cases = s.cases ++ c ∷ []; next_id = s.next_id + 1 }) in
    (
      record { risk_case = c; hold_count = length pending_rewards },
      add_event (open_event now c input (length pending_rewards)) held,
    )

-- The transaction has no step that throws.
unfoldable pub ensure_open_case : ℕ → CaseInput → Exec Risk FraudCaseSummary
ensure_open_case now input s =
    elim (find (is_active_case input.tenant_id input.tenant_user_id) s.cases) [
      | some c ↦ (ok (to_case_summary c (holds_of c.id s)), s)
      | none ↦ let (summary, s') = open_new_case now input s in (ok summary, s')
    ]

abbrev pub has_key : ℕ → Text → RiskSignal → Bool
has_key tenant_id key g =
    g.tenant_id == tenant_id && elim g.dedupe_key [ none ↦ false | some k ↦ text_eq k key ]

-- The signal with the key of the input, where the input has one that is not empty.
unfoldable pub find_signal : ℕ → Option Text → Risk → Option RiskSignal
find_signal tenant_id none s = none
find_signal tenant_id (some []) s = none
find_signal tenant_id (some (c ∷ cs)) s = find (has_key tenant_id (c ∷ cs)) s.signals

abbrev pub is_key_taken : ℕ → Option Text → Risk → Bool
is_key_taken tenant_id none s = false
is_key_taken tenant_id (some key) s = any (has_key tenant_id key) s.signals

unfoldable pub signal_row : ℕ → ℕ → FraudConfig → FraudSignalInput → RiskSignal
signal_row now id config input =
    let score = value_or input.score (pos (config.signal_weights input.signal_type)) in
    record {
      id = id;
      tenant_id = input.tenant_id;
      tenant_user_id = input.tenant_user_id;
      signal_type = input.signal_type;
      score = score;
      severity = score_to_severity score;
      status = codes "active";
      dedupe_key = input.dedupe_key;
      source_event_id = input.source_event_id;
      metadata = input.metadata;
      created_at = value_or input.created_at now;
    }

-- `riskSignal.create`, with its unique index on the tenant and the key.
unfoldable pub create_signal : ℕ → FraudConfig → FraudSignalInput → Exec Risk RiskSignal
create_signal now config input s =
    if is_key_taken input.tenant_id input.dedupe_key s then (err Error.unique_violation, s) else (
      ok (signal_row now s.next_id config input),
      record s {
        signals = s.signals ++ signal_row now s.next_id config input ∷ [];
        next_id = s.next_id + 1;
      },
    )

abbrev pub system_actor : FraudActor
system_actor = record { actor_type = system; actor_id = none }

abbrev pub case_input : FraudConfig → RiskSignal → ℕ → ℤ → CaseInput
case_input config g user score = record {
  tenant_id = g.tenant_id;
  tenant_user_id = user;
  score_total = score;
  config = config;
  signal_id = some g.id;
  actor = system_actor;
  note = none;
}

-- The case that a signal calls for, if any.
unfoldable pub case_of_signal :
    ℕ → FraudConfig → RiskSignal → ℤ → Exec Risk (Option FraudCaseSummary)
case_of_signal now config g score s = elim g.tenant_user_id [
  | none ↦ (ok none, s)
  | some u ↦
      if leb_ℤ (pos config.case_threshold) score
      then (do c ← ensure_open_case now (case_input config g u score); pure (some c)) s
      else (ok none, s)
]

unfoldable pub record_new : ℕ → FraudConfig → FraudSignalInput → Exec Risk RecordSignalResult
record_new now config input = do
  g ← create_signal now config input
  score ← gets (compute_rolling_score input.tenant_id g.tenant_user_id config g.created_at)
  opened ← case_of_signal now config g score
  pure (record { signal = g; case_opened = opened; rolling_score = score })

unfoldable pub record_enabled : ℕ → FraudConfig → FraudSignalInput → Exec Risk RecordSignalResult
record_enabled now config input s = elim (find_signal input.tenant_id input.dedupe_key s) [
  | some g ↦ (
    ok (record {
      signal = g;
      case_opened = none;
      rolling_score = compute_rolling_score input.tenant_id g.tenant_user_id config g.created_at s;
    }),
    s,
  )
  | none ↦ record_new now config input s
]

module _ (parsed : ℕ → Result ParsedFraudConfig) where
  unfoldable pub load_config : ℕ → Exec Risk FraudConfig
  load_config tenant_id = lift (parse_fraud_config (parsed tenant_id))

  unfoldable pub record_signal : ℕ → FraudSignalInput → Exec Risk (Option RecordSignalResult)
  record_signal now input = do
    config ← load_config input.tenant_id
    if config.enabled then (do r ← record_enabled now config input; pure (some r)) else pure none

  unfoldable pub create_case_for_user :
      ℕ → ℕ → ℕ → ℤ → Option ℕ → Option FraudActor → Option Text → Exec Risk FraudCaseSummary
  create_case_for_user now tenant_id user_id score_total signal_id actor note = do
    config ← load_config tenant_id
    ensure_open_case now (record {
      tenant_id = tenant_id;
      tenant_user_id = user_id;
      score_total = score_total;
      config = config;
      signal_id = signal_id;
      actor = value_or actor system_actor;
      note = note;
    })
