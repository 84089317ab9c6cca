-- ===== src/Fraud/Decisions.antt =====
-- The decisions on a case (`allowCase`, `rejectCase` and `escalateCase` of
-- packages/domain/fraud/src/fraud.service.ts).
use alice_uprm.Prelude.{
  ℕ, ◌≡◌, refl, ap, ◌∙◌, ◌⊎◌, inl, inr, true, false, Option, none, some, List, ◌==◌, ==_iff,
  Bool-cases, Option-cases,
}
use alice_uprm.Prelude.Text.{Text, codes}
use alice_uprm.Prelude.Exec.{
  Error, Result, ok, err, Exec, transaction, transaction-of_ok, ◌>>=◌, ◌>>◌, modify, >>=-of_ok,
  >>=-of_err,
}
use alice_uprm.Prelude.Keyed.{by_id, update_id, by_id-update_id}
use alice_uprm.Fraud.Types.{
  FraudCaseStatus, open_case, allowed, rejected, escalated, FraudActor, RiskCase, Risk,
  FraudCaseDetail,
}
use alice_uprm.Fraud.Views.{is_active_case_status, case_id, detail_of, get_case}
use alice_uprm.Fraud.Config.{raise_severity}
use alice_uprm.Fraud.Cases.{
  require_active, detail_after, as_resolved, release_holds, resolve_case, allow_case, reject_holds,
  reject_case, as_escalated, escalate, escalate_case,
}

-- The case is not there, or is decided already.
abbrev pub IsUndecidable : ℕ → Risk → Type 0
IsUndecidable id s =
    by_id case_id id s.cases ≡ none
    ⊎ ((c : RiskCase) × (by_id case_id id s.cases ≡ some c)
        × (c.status ≡ allowed ⊎ c.status ≡ rejected))

decided : (t : FraudCaseStatus) → is_active_case_status t ≡ false → t ≡ allowed ⊎ t ≡ rejected
decided allowed h = inl refl
decided rejected h = inr refl
decided open_case h = cc
decided escalated h = cc

require_active-cases :
    (id : ℕ) (s : Risk)
    → ((c : RiskCase) × (by_id case_id id s.cases ≡ some c)
        × (is_active_case_status c.status ≡ true)
        × (require_active id s ≡ (ok c, s)))
      ⊎ (IsUndecidable id s × (e : Error) × (require_active id s ≡ (err e, s)))
unfolding require_active
require_active-cases id s = elim (Option-cases (by_id case_id id s.cases)) [
  | inl absent ↦ inr (inl absent, Error.risk_case_not_found, rw (absent, require_active) refl)
  | inr (c, found) ↦ elim (Bool-cases (is_active_case_status c.status)) [
    | inl active ↦ inl (c, found, active, rw (found, active, require_active) refl)
    | inr ended ↦ inr (
      inr (c, found, decided c.status ended),
      Error.risk_case_not_open,
      rw (found, ended, require_active) refl,
    )
  ]
]

-- A decision that changes the case by `f` and the tables by `F`.
abbrev pub decide : ℕ → (RiskCase → Risk → Risk) → Exec Risk FraudCaseDetail
decide id F = do transaction (do c ← require_active id; modify (F c)); detail_after id

abbrev pub Decided :
    ℕ
    → (RiskCase → Risk → Risk)
    → (RiskCase → RiskCase)
    → Risk
    → Result FraudCaseDetail × Risk
    → Type 0
Decided id F f s out =
    (IsUndecidable id s × (e : Error) × (out ≡ (err e, s)))
    ⊎ ((c : RiskCase) × (by_id case_id id s.cases ≡ some c)
        × (is_active_case_status c.status ≡ true)
        × (out ≡ (ok (detail_of (f c) (F c s)), F c s)))

transaction-of_err {ℓ} :
    {A : Type ℓ} (m : Exec Risk A) (s : Risk) (e : Error) (s' : Risk)
    → m s ≡ (err e, s')
    → transaction m s ≡ (err e, s)
transaction-of_err m s e s' h =
    ap (λ (x : Result _ × Risk). elim x.0 [ ok b ↦ (ok b, x.1) | err d ↦ (err d, s) ]) h

module _ (id : ℕ) (F : RiskCase → Risk → Risk) (f : RiskCase → RiskCase) (s : Risk)
    (changed : (c : RiskCase)
      → by_id case_id id s.cases ≡ some c
      → by_id case_id id (F c s).cases ≡ some (f c)) where
  detail-found :
      (c : RiskCase) (s' : Risk)
      → by_id case_id id s'.cases ≡ some c
      → detail_after id s' ≡ (ok (detail_of c s'), s')
  unfolding detail_after get_case
  detail-found c s' found = rw (found, detail_after) refl

  pub decide-Decided : Decided id F f s (decide id F s)
  decide-Decided = elim (require_active-cases id s) [
    | inr (undecidable, e, run) ↦
        let inner = >>=-of_err (require_active id) (λ c. modify (F c)) s e s run in
        let outer = transaction-of_err (require_active id >>= λ c. modify (F c)) s e s inner in
        inl (
          undecidable,
          e,
          >>=-of_err (transaction (require_active id >>= λ c. modify (F c))) (λ _. detail_after id)
              s e s outer,
        )
    | inl (c, found, active, run) ↦
        let inner = >>=-of_ok (require_active id) (λ d. modify (F d)) s c s run in
        let outer =
          transaction-of_ok (require_active id >>= λ d. modify (F d)) s tt (F c s) inner in
        let all =
          >>=-of_ok (transaction (require_active id >>= λ d. modify (F d))) (λ _. detail_after id) s
            tt (F c s) outer in
        inr (c, found, active, all ∙ detail-found (f c) (F c s) (changed c found))
  ]

-- A change of the case with the id.
pub changed-case :
    (id : ℕ) (f : RiskCase → RiskCase) (cs : List RiskCase) (c : RiskCase)
    → ((x : RiskCase) → (f x).id ≡ x.id)
    → by_id case_id id cs ≡ some c
    → by_id case_id id (update_id case_id id f cs) ≡ some (f c)
changed-case id f cs c keeps found =
    let self : (id == id) ≡ true = (==_iff id id).1 refl in
    by_id-update_id case_id f keeps id id cs ∙ rw (self, found) refl

module _ (now id : ℕ) (actor : FraudActor) (note : Option Text) (s : Risk) where
  abbrev pub F_allow : RiskCase → Risk → Risk
  F_allow c t =
      resolve_case now id actor c.status allowed (codes "allow") note (release_holds now id t)

  abbrev pub F_reject : RiskCase → Risk → Risk
  F_reject c t =
      resolve_case now id actor c.status rejected (codes "reject") note (reject_holds now id note t)

  abbrev pub F_escalate : RiskCase → Risk → Risk
  F_escalate c t = escalate now id actor note c t

  pub allow_case-Decided :
      Decided id F_allow
        (as_resolved now allowed (codes "allow") note)
        s
        (allow_case now id actor note s)
  unfolding allow_case resolve_case release_holds as_resolved
  allow_case-Decided =
      decide-Decided id F_allow (as_resolved now allowed (codes "allow") note) s
        (λ c found. changed-case id _ s.cases c (λ x. refl) found)

  pub reject_case-Decided :
      Decided id F_reject
        (as_resolved now rejected (codes "reject") note)
        s
        (reject_case now id actor note s)
  unfolding reject_case resolve_case reject_holds as_resolved
  reject_case-Decided =
      decide-Decided id F_reject (as_resolved now rejected (codes "reject") note) s
        (λ c found. changed-case id _ s.cases c (λ x. refl) found)

  abbrev pub f_escalate : RiskCase → RiskCase
  f_escalate c = as_escalated note (raise_severity c.severity) c

  pub escalate_case-Decided : Decided id F_escalate f_escalate s (escalate_case now id actor note s)
  unfolding escalate_case escalate as_escalated
  escalate_case-Decided = decide-Decided id F_escalate f_escalate s (λ c found.
      changed-case id (as_escalated note (raise_severity c.severity)) s.cases c (λ x. refl) found)
