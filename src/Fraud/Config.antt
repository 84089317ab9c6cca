-- ===== src/Fraud/Config.antt =====
-- packages/domain/fraud/src/config.ts, and the scales of packages/domain/fraud/src/fraud.service.ts.
-- What the schema of zod reads is a parameter.
use alice_uprm.Prelude.{ℕ, Bool, true, Option, none, some, if◌then◌else◌}
use alice_uprm.Prelude.Int.{ℤ, pos, leb_ℤ}
use alice_uprm.Prelude.Text.{Text, codes}
use alice_uprm.Prelude.Exec.{Result, ok, err}
use alice_uprm.Fraud.Types.{
  FraudSignalType, same_ip_multiple_signups, same_payment_fingerprint, referral_velocity,
  self_referral_attempt, high_refund_ratio_cluster, FraudSeverity, low, medium, high, critical,
  FraudConfig,
}

-- What `fraudConfigSchema.parse` gives.
pub record ParsedFraudConfig : Type 0 where
  pub enabled : Option Bool
  pub case_threshold : Option ℕ
  pub score_window_hours : Option ℕ
  pub velocity_window_minutes : Option ℕ
  pub velocity_referral_count_threshold : Option ℕ
  pub refund_ratio_window_days : Option ℕ
  pub refund_ratio_threshold : Option Text
  pub cluster_window_days : Option ℕ
  pub signal_weights : FraudSignalType → Option ℕ

abbrev pub default_signal_weights : FraudSignalType → ℕ
default_signal_weights same_ip_multiple_signups = 35
default_signal_weights same_payment_fingerprint = 45
default_signal_weights referral_velocity = 30
default_signal_weights self_referral_attempt = 100
default_signal_weights high_refund_ratio_cluster = 60

-- `value ?? fallback`
abbrev pub value_or {ℓ} : {A : Type ℓ} → Option A → A → A
value_or none a = a
value_or (some b) a = b

unfoldable pub with_defaults : ParsedFraudConfig → FraudConfig
with_defaults p = record {
  enabled = value_or p.enabled true;
  case_threshold = value_or p.case_threshold 100;
  score_window_hours = value_or p.score_window_hours 24;
  velocity_window_minutes = value_or p.velocity_window_minutes 60;
  velocity_referral_count_threshold = value_or p.velocity_referral_count_threshold 5;
  refund_ratio_window_days = value_or p.refund_ratio_window_days 30;
  refund_ratio_threshold = value_or p.refund_ratio_threshold (codes "0.5");
  cluster_window_days = value_or p.cluster_window_days 30;
  signal_weights = λ t. value_or (p.signal_weights t) (default_signal_weights t);
}

-- A failed parse throws.
unfoldable pub parse_fraud_config : Result ParsedFraudConfig → Result FraudConfig
parse_fraud_config (ok p) = ok (with_defaults p)
parse_fraud_config (err e) = err e

unfoldable pub score_to_severity : ℤ → FraudSeverity
score_to_severity score =
    if leb_ℤ (pos 150) score
    then critical
    else if leb_ℤ (pos 100) score
    then high
    else if leb_ℤ (pos 50) score
    then medium
    else low

abbrev pub raise_severity : FraudSeverity → FraudSeverity
raise_severity low = medium
raise_severity medium = high
raise_severity high = critical
raise_severity critical = critical
