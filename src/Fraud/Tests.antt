-- ===== src/Fraud/Tests.antt =====
-- Runs of the fraud service (packages/domain/fraud/src/fraud.service.ts).
use alice_uprm.Prelude.{ℕ, ◌≡◌, refl, inl, Bool, true, false, none, some, [], ◌∷◌, map}
use alice_uprm.Prelude.Int.{pos, ◌+ℤ◌}
use alice_uprm.Prelude.Text.{codes, text_eq}
use alice_uprm.Prelude.Exec.{Result, ok}
use alice_uprm.Prelude.Rows.{any, sum_by}
use alice_uprm.Fraud.Types.{
  self_referral_attempt, open_case, admin, FraudActor, FraudSignalInput, RewardHold, pending,
  HeldPosting, Risk, FraudCaseSummary,
}
use alice_uprm.Fraud.Views.{
  is_active_hold_status, is_active_case, is_active_hold_of, to_case_summary, holds_of, get_case,
  detail_of,
}
use alice_uprm.Fraud.Config.{
  ParsedFraudConfig, with_defaults, parse_fraud_config, score_to_severity,
}
use alice_uprm.Fraud.Cases.{
  require_active, detail_after, as_resolved, resolved_event, release_holds, resolve_case,
  allow_case,
}
use alice_uprm.Fraud.Signals.{
  is_recent, compute_rolling_score, CaseInput, case_row, is_pending_reward, hold_row, add_holds,
  open_event, open_new_case, ensure_open_case, find_signal, signal_row, create_signal,
  case_of_signal, record_new, record_enabled, load_config, record_signal, create_case_for_user,
  system_actor,
}
use alice_uprm.Fraud.Fitting.{IsFitting}
use alice_uprm.Fraud.Holding.{holds_for, ensure_open_case-holds}
use alice_uprm.Fraud.Run.{start, signals, allows, Run-IsFitting}

abbrev waiting : HeldPosting
waiting = record {
  id = 50;
  tenant_id = 7;
  beneficiary_id = some 3;
  status = pending;
  cancel_reason = none;
}

abbrev quiet : Risk
quiet = record {
  signals = [];
  cases = [];
  events = [];
  holds = [];
  postings = waiting ∷ [];
  next_id = 100;
}

abbrev nothing_set : ParsedFraudConfig
nothing_set = record {
  enabled = none;
  case_threshold = none;
  score_window_hours = none;
  velocity_window_minutes = none;
  velocity_referral_count_threshold = none;
  refund_ratio_window_days = none;
  refund_ratio_threshold = none;
  cluster_window_days = none;
  signal_weights = λ t. none;
}

abbrev parsed : ℕ → Result ParsedFraudConfig
parsed t = ok nothing_set

abbrev attempt : FraudSignalInput
attempt = record {
  tenant_id = 7;
  tenant_user_id = some 3;
  signal_type = self_referral_attempt;
  score = none;
  source_event_id = none;
  dedupe_key = some (codes "k");
  metadata = codes "{}";
  created_at = none;
}

abbrev suspected : Risk
suspected = (record_signal parsed 1000 attempt quiet).1

abbrev someone : FraudActor
someone = record { actor_type = admin; actor_id = some 1 }

abbrev hold_view : RewardHold → ℕ × ℕ × Bool
hold_view h = (h.scheduled_posting_id, h.risk_case_id, is_active_hold_status h.status)

suspected-held : map hold_view suspected.holds ≡ (50, 101, true) ∷ []
unfolding record_signal load_config parse_fraud_config with_defaults record_enabled find_signal
    record_new create_signal signal_row score_to_severity compute_rolling_score is_recent
    case_of_signal ensure_open_case is_active_case open_new_case case_row is_pending_reward
    add_holds hold_row open_event sum_by text_eq ◌+ℤ◌
suspected-held = refl

-- The first case is allowed, and a second one is opened, while the reward is still pending. Its hold
-- stays released.
abbrev again : Risk
again =
    (create_case_for_user parsed 3000 7 3 (pos 100) none none none
      (allow_case 2000 101 someone none suspected).1).1

again-not_held : map hold_view again.holds ≡ (50, 101, false) ∷ []
unfolding record_signal load_config parse_fraud_config with_defaults record_enabled find_signal
    record_new create_signal signal_row score_to_severity compute_rolling_score is_recent
    case_of_signal ensure_open_case is_active_case open_new_case case_row is_pending_reward
    add_holds hold_row open_event sum_by text_eq ◌+ℤ◌ allow_case require_active detail_after
    as_resolved resolved_event release_holds resolve_case get_case detail_of to_case_summary
    holds_of is_active_hold_of create_case_for_user
again-not_held = refl

Run-IsFitting_example : IsFitting (allow_case 2000 101 someone none suspected).1
Run-IsFitting_example =
    Run-IsFitting parsed (allow_case 2000 101 someone none suspected).1
      (allows (signals (start quiet refl refl) 1000 attempt) 2000 101 someone none)

abbrev asked : CaseInput
asked = record {
  tenant_id = 7;
  tenant_user_id = 3;
  score_total = pos 120;
  config = with_defaults nothing_set;
  signal_id = none;
  actor = system_actor;
  note = none;
}

ensure_open_case-holds_example :
    let out = ensure_open_case 1000 asked quiet in
    (r : FraudCaseSummary) × (out.0 ≡ ok r)
    × (r.risk_case.status ≡ open_case)
    × (any (holds_for r.risk_case.id 50) out.1.holds ≡ true)
unfolding is_pending_reward
ensure_open_case-holds_example =
    ensure_open_case-holds 1000 asked quiet waiting refl (inl refl) refl refl
