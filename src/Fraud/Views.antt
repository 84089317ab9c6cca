-- ===== src/Fraud/Views.antt =====
-- What `FraudService` reads of its cases (packages/domain/fraud/src/fraud.service.ts).
use alice_uprm.Prelude.{
  ℕ, Bool, true, false, ◌&&◌, Option, none, some, List, map, leb, ◌==◌, length, take,
}
use alice_uprm.Prelude.Rows.{filter}
use alice_uprm.Prelude.Keyed.{by_id}
use alice_uprm.Fraud.Types.{
  FraudCaseStatus, open_case, allowed, rejected, escalated, FraudSeverity, RiskSignal, RiskCase,
  RewardHoldStatus, hold_active, RewardHold, PostingStatus, pending, Risk, FraudCaseSummary,
  FraudCaseDetail,
}
use alice_uprm.Fraud.Config.{value_or}
use alice_uprm.Prelude.Sorting.{sort_by}

abbrev pub is_active_case_status : FraudCaseStatus → Bool
is_active_case_status open_case = true
is_active_case_status escalated = true
is_active_case_status _ = false

abbrev pub is_active_hold_status : RewardHoldStatus → Bool
is_active_hold_status hold_active = true
is_active_hold_status _ = false

abbrev pub is_pending_status : PostingStatus → Bool
is_pending_status pending = true
is_pending_status _ = false

abbrev pub case_id : RiskCase → ℕ
case_id c = c.id

unfoldable pub is_active_case : ℕ → ℕ → RiskCase → Bool
is_active_case tenant_id user_id c =
    c.tenant_id == tenant_id && c.tenant_user_id == user_id && is_active_case_status c.status

unfoldable pub is_hold_of : ℕ → RewardHold → Bool
is_hold_of id h = h.risk_case_id == id

unfoldable pub is_active_hold_of : ℕ → RewardHold → Bool
is_active_hold_of id h = h.risk_case_id == id && is_active_hold_status h.status

abbrev pub count_of {ℓ} : {A : Type ℓ} → List A → ℕ
count_of xs = length xs

unfoldable pub to_case_summary : RiskCase → List RewardHold → FraudCaseSummary
to_case_summary c holds = record { risk_case = c; hold_count = count_of holds }

unfoldable pub holds_of : ℕ → Risk → List RewardHold
holds_of id s = filter (is_hold_of id) s.holds

-- `orderBy: [{ createdAt: 'desc' }]`
abbrev pub latest_first {ℓ} : {A : Type ℓ} → (A → ℕ) → List A → List A
latest_first at xs = sort_by (λ a b. leb (at b) (at a)) xs

pub record CaseFilters : Type 0 where
  pub tenant_id : Option ℕ
  pub status : Option FraudCaseStatus
  pub severity : Option FraudSeverity
  pub limit : Option ℕ

abbrev pub status_code : FraudCaseStatus → ℕ
status_code open_case = 0
status_code allowed = 1
status_code rejected = 2
status_code escalated = 3

abbrev pub severity_code : FraudSeverity → ℕ
severity_code FraudSeverity.low = 0
severity_code FraudSeverity.medium = 1
severity_code FraudSeverity.high = 2
severity_code FraudSeverity.critical = 3

abbrev pub matches : Option ℕ → ℕ → Bool
matches none n = true
matches (some m) n = n == m

unfoldable pub is_listed : CaseFilters → RiskCase → Bool
is_listed f c =
    matches f.tenant_id c.tenant_id
    && (elim f.status [ none ↦ true | some t ↦ status_code c.status == status_code t ]
        && elim f.severity [ none ↦ true | some v ↦ severity_code c.severity == severity_code v ])

unfoldable pub list_cases : CaseFilters → Risk → List FraudCaseSummary
list_cases f s =
    map (λ (c : RiskCase). to_case_summary c (holds_of c.id s))
      (take (value_or f.limit 100) (latest_first (λ c. c.opened_at) (filter (is_listed f) s.cases)))

unfoldable pub is_signal_of : RiskCase → RiskSignal → Bool
is_signal_of c g =
    g.tenant_id == c.tenant_id
    && elim g.tenant_user_id [ none ↦ false | some u ↦ u == c.tenant_user_id ]

unfoldable pub detail_of : RiskCase → Risk → FraudCaseDetail
detail_of c s = record {
  summary = to_case_summary c (holds_of c.id s);
  opened_by_signal = elim c.opened_by_signal_id [
    | none ↦ none
    | some i ↦ by_id (λ g. g.id) i s.signals
  ];
  events = latest_first (λ e. e.created_at) (filter (λ e. e.risk_case_id == c.id) s.events);
  reward_holds = latest_first (λ h. h.created_at) (holds_of c.id s);
  related_signals = take 20 (latest_first (λ g. g.created_at) (filter (is_signal_of c) s.signals));
}

unfoldable pub get_case : ℕ → Risk → Option FraudCaseDetail
get_case id s = elim (by_id case_id id s.cases) [ none ↦ none | some c ↦ some (detail_of c s) ]
