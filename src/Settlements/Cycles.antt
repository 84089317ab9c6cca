-- ===== src/Settlements/Cycles.antt =====
-- `SettlementService` of packages/domain/settlements/src/settlement.service.ts. `now` is the clock of
-- the call and `start_of_month` the calendar of the platform. The amounts of scheduled postings are
-- integers: a payload that `BigInt` refuses is not modelled.
use alice_uprm.Prelude.{
  ℕ, ◌+◌, Bool, true, false, not, ◌&&◌, Option, none, some, List, [], ◌∷◌, ◌++◌, ◌==◌,
  if◌then◌else◌, is_some,
}
use alice_uprm.Prelude.Int.{ℤ, pos, ◌+ℤ◌, neg, ltb_ℤ}
use alice_uprm.Prelude.Text.{Text, text_eq}
use alice_uprm.Prelude.Exec.{Error, ok, err, Exec}
use alice_uprm.Prelude.Rows.{find, filter, any, sum_by}
use alice_uprm.Prelude.Keyed.{by_id, update_id}
use alice_uprm.Ledger.Types.{Account, user_balance, type_eq, Posting, PostingInput, Ledger}
use alice_uprm.Payouts.Types.{Tenant}

pub data CycleStatus : Type 0 where
  opened closed : CycleStatus

pub record SettlementCycle : Type 0 where
  pub id : ℕ
  pub tenant_id : ℕ
  pub currency : Text
  pub period_start : ℕ
  pub period_end : ℕ
  pub status : CycleStatus
  pub ledger_liability_minor : ℤ
  pub pending_liability_minor : ℤ
  pub total_liability_minor : ℤ
  pub note : Option Text
  pub opened_by_admin_id : Option ℕ
  pub closed_by_admin_id : Option ℕ
  pub closed_at : Option ℕ

-- The columns that the snapshot reads. `is_waiting` says that the status is 'pending' or 'processing'.
pub record ScheduledPosting : Type 0 where
  pub tenant_id : ℕ
  pub is_waiting : Bool
  pub payload_currency : Option Text
  pub payload_postings : List PostingInput

pub record Books : Type 0 where
  pub tenants : List Tenant
  pub ledger : Ledger
  pub scheduled : List ScheduledPosting
  pub cycles : List SettlementCycle
  pub next_id : ℕ

pub record Snapshot : Type 0 where
  pub ledger_liability_minor : ℤ
  pub pending_liability_minor : ℤ
  pub total_liability_minor : ℤ

pub record OpenSettlementCycleInput : Type 0 where
  pub tenant_id : ℕ
  pub admin_user_id : Option ℕ
  pub note : Option Text
  pub period_start : Option ℕ
  pub period_end : Option ℕ

pub record CloseSettlementCycleInput : Type 0 where
  pub id : ℕ
  pub admin_user_id : Option ℕ
  pub note : Option Text

abbrev pub or_else {ℓ} : {A : Type ℓ} → Option A → A → A
or_else none d = d
or_else (some a) d = a

-- What a negative amount owes.
unfoldable pub owed : ℤ → ℤ
owed amount = if ltb_ℤ amount (pos 0) then neg amount else pos 0

unfoldable pub liability_accounts : ℕ → Text → Ledger → List Account
liability_accounts tenant currency l =
    filter
      (λ (a : Account).
        a.tenant_id == tenant && type_eq a.account_type user_balance && text_eq a.currency currency)
      l.accounts

unfoldable pub posted_on : ℕ → Ledger → ℤ
posted_on account l =
    sum_by (λ (p : Posting). p.amount)
      (filter (λ (p : Posting). p.account_id == account) l.postings)

unfoldable pub ledger_liability : List Account → Ledger → ℤ
ledger_liability accounts l = sum_by (λ (a : Account). owed (posted_on a.id l)) accounts

-- `payloadCurrency && payloadCurrency !== currency`, where the empty text counts as none.
unfoldable pub is_foreign : Text → Option Text → Bool
is_foreign currency none = false
is_foreign currency (some []) = false
is_foreign currency (some (c ∷ cs)) = not (text_eq (c ∷ cs) currency)

unfoldable pub row_liability : Text → List Account → ScheduledPosting → ℤ
row_liability currency accounts row =
    if is_foreign currency row.payload_currency
    then pos 0
    else sum_by (λ (p : PostingInput). owed p.amount)
        (filter (λ (p : PostingInput). any (λ (a : Account). a.id == p.account_id) accounts)
          row.payload_postings)

unfoldable pub compute_snapshot : ℕ → Text → Books → Snapshot
compute_snapshot tenant currency s =
    let accounts = liability_accounts tenant currency s.ledger in
    let booked = ledger_liability accounts s.ledger in
    let waiting =
      filter (λ (r : ScheduledPosting). r.tenant_id == tenant && r.is_waiting) s.scheduled in
    let pending = sum_by (row_liability currency accounts) waiting in
    record {
      ledger_liability_minor = booked;
      pending_liability_minor = pending;
      total_liability_minor = booked +ℤ pending;
    }

abbrev pub is_open : CycleStatus → Bool
is_open opened = true
is_open closed = false

unfoldable pub is_open_for : ℕ → Text → SettlementCycle → Bool
is_open_for tenant currency c =
    c.tenant_id == tenant && text_eq c.currency currency && is_open c.status

unfoldable pub cycle_row :
    (ℕ → ℕ) → ℕ → ℕ → OpenSettlementCycleInput → Text → Snapshot → SettlementCycle
cycle_row start_of_month now id input currency snapshot = record {
  id = id;
  tenant_id = input.tenant_id;
  currency = currency;
  period_start = or_else input.period_start (start_of_month (or_else input.period_end now));
  period_end = or_else input.period_end now;
  status = opened;
  ledger_liability_minor = snapshot.ledger_liability_minor;
  pending_liability_minor = snapshot.pending_liability_minor;
  total_liability_minor = snapshot.total_liability_minor;
  note = input.note;
  opened_by_admin_id = input.admin_user_id;
  closed_by_admin_id = none;
  closed_at = none;
}

unfoldable pub open_cycle : (ℕ → ℕ) → ℕ → OpenSettlementCycleInput → Exec Books SettlementCycle
open_cycle start_of_month now input s = elim (by_id (λ t. t.id) input.tenant_id s.tenants) [
  | none ↦ (err Error.tenant_not_found, s)
  | some tenant ↦ elim (find (is_open_for input.tenant_id tenant.base_currency) s.cycles) [
    | some _ ↦ (err Error.cycle_already_open, s)
    | none ↦
        let row =
          cycle_row start_of_month now s.next_id input tenant.base_currency
            (compute_snapshot input.tenant_id tenant.base_currency s) in
        (ok row, record s { cycles = s.cycles ++ row ∷ []; next_id = s.next_id + 1 })
  ]
]

unfoldable pub close_row :
    ℕ → CloseSettlementCycleInput → Snapshot → SettlementCycle → SettlementCycle
close_row now input snapshot c = record c {
  status = closed;
  period_end = now;
  ledger_liability_minor = snapshot.ledger_liability_minor;
  pending_liability_minor = snapshot.pending_liability_minor;
  total_liability_minor = snapshot.total_liability_minor;
  note = if is_some input.note then input.note else c.note;
  closed_by_admin_id = input.admin_user_id;
  closed_at = some now;
}

unfoldable pub close_cycle : ℕ → CloseSettlementCycleInput → Exec Books SettlementCycle
close_cycle now input s = elim (by_id (λ c. c.id) input.id s.cycles) [
  | none ↦ (err Error.cycle_not_found, s)
  | some current ↦
      let change = close_row now input (compute_snapshot current.tenant_id current.currency s) in
      if is_open current.status
      then (
        ok (change current),
        record s { cycles = update_id (λ c. c.id) input.id change s.cycles },
      )
      else (err Error.cycle_not_open, s)
]
