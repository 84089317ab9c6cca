-- ===== src/Fraud/Run.antt =====
-- Any sequence of the calls of `FraudService` (packages/domain/fraud/src/fraud.service.ts).
use alice_uprm.Prelude.{ℕ, ◌≡◌, Bool, true, false, Option, none, some, List, [], if◌then◌else◌}
use alice_uprm.Prelude.Int.{ℤ}
use alice_uprm.Prelude.Text.{Text}
use alice_uprm.Prelude.Exec.{Result, Exec, pure, ◌>>=◌, Keeps, >>=-Keeps}
use alice_uprm.Fraud.Types.{
  FraudConfig, FraudActor, FraudSignalInput, HeldPosting, Risk, RecordSignalResult,
}
use alice_uprm.Fraud.Config.{ParsedFraudConfig, value_or}
use alice_uprm.Fraud.Cases.{allow_case, reject_case, escalate_case}
use alice_uprm.Fraud.Signals.{
  system_actor, CaseInput, ensure_open_case, record_enabled, record_signal, create_case_for_user,
  load_config,
}
use alice_uprm.Fraud.Fitting.{IsFitting}
use alice_uprm.Fraud.Kept.{
  allow_case-IsFitting, reject_case-IsFitting, escalate_case-IsFitting, ensure_open_case-IsFitting,
  record_enabled-IsFitting,
}

module _ (parsed : ℕ → Result ParsedFraudConfig) where
  record_signal-IsFitting :
      (now : ℕ) (input : FraudSignalInput) → Keeps IsFitting (record_signal parsed now input)
  unfolding record_signal load_config
  record_signal-IsFitting now input =
      >>=-Keeps IsFitting (load_config parsed input.tenant_id) answer (λ t k. k) either
    where
      answer : FraudConfig → Exec Risk (Option RecordSignalResult)
      answer config =
          if config.enabled
          then (record_enabled now config input >>= λ r. pure (some r))
          else pure none

      choose :
          (b : Bool) (m : Exec Risk (Option RecordSignalResult))
          → Keeps IsFitting m
          → Keeps IsFitting (if b then m else pure none)
      choose true m h = h
      choose false m h = λ s k. k

      either : (config : FraudConfig) → Keeps IsFitting (answer config)
      either config =
          choose config.enabled (record_enabled now config input >>= λ r. pure (some r)) (
            >>=-Keeps IsFitting (record_enabled now config input) (λ r. pure (some r))
              (record_enabled-IsFitting now config input) (λ r t k. k))

  create_case_for_user-IsFitting :
      (now t u : ℕ) (score : ℤ) (signal : Option ℕ) (actor : Option FraudActor) (note : Option Text)
      → Keeps IsFitting (create_case_for_user parsed now t u score signal actor note)
  unfolding create_case_for_user load_config
  create_case_for_user-IsFitting now t u score signal actor note =
      >>=-Keeps IsFitting (load_config parsed t) (λ config. ensure_open_case now (input config))
        (λ x k. k) (λ config. ensure_open_case-IsFitting now (input config))
    where
      input : FraudConfig → CaseInput
      input config = record {
        tenant_id = t;
        tenant_user_id = u;
        score_total = score;
        config = config;
        signal_id = signal;
        actor = value_or actor system_actor;
        note = note;
      }

  -- The calls of the service, with any change of the scheduled postings between them.
  pub data Run : Risk → Type 0 where
    start : (s : Risk) → s.cases ≡ [] → s.holds ≡ [] → Run s
    elsewhere : {s : Risk} → Run s → (ps : List HeldPosting) → Run (record s { postings = ps })
    signals :
        {s : Risk}
        → Run s
        → (now : ℕ) (input : FraudSignalInput) → Run (record_signal parsed now input s).1
    opens :
        {s : Risk}
        → Run s
        → (now t u : ℕ) (score : ℤ) (signal : Option ℕ) (actor : Option FraudActor)
          (note : Option Text)
        → Run (create_case_for_user parsed now t u score signal actor note s).1
    allows :
        {s : Risk}
        → Run s
        → (now id : ℕ) (actor : FraudActor) (note : Option Text)
        → Run (allow_case now id actor note s).1
    rejects :
        {s : Risk}
        → Run s
        → (now id : ℕ) (actor : FraudActor) (note : Option Text)
        → Run (reject_case now id actor note s).1
    escalates :
        {s : Risk}
        → Run s
        → (now id : ℕ) (actor : FraudActor) (note : Option Text)
        → Run (escalate_case now id actor note s).1

-- Whatever the calls of the fraud service, a user of a tenant has at most one active case, and every
-- hold is of a case: active as long as the case is, released when it was allowed, and rejected when it
-- was rejected.
pub Run-IsFitting : (parsed : ℕ → Result ParsedFraudConfig) (s : Risk) → Run parsed s → IsFitting s
Run-IsFitting parsed s (start _ no_cases no_holds) = record {
  ids = rw no_cases tt;
  below = rw no_cases tt;
  single = rw no_cases tt;
  fits = rw no_holds tt;
}
Run-IsFitting parsed s (elsewhere {s = t} run ps) =
    let h = Run-IsFitting parsed t run in
    record { ids = h.ids; below = h.below; single = h.single; fits = h.fits }
Run-IsFitting parsed s (signals {s = t} run now input) =
    record_signal-IsFitting parsed now input t (Run-IsFitting parsed t run)
Run-IsFitting parsed s (opens {s = t} run now tenant user score signal actor note) =
    create_case_for_user-IsFitting parsed now tenant user score signal actor note t
      (Run-IsFitting parsed t run)
Run-IsFitting parsed s (allows {s = t} run now id actor note) =
    allow_case-IsFitting now id actor note t (Run-IsFitting parsed t run)
Run-IsFitting parsed s (rejects {s = t} run now id actor note) =
    reject_case-IsFitting now id actor note t (Run-IsFitting parsed t run)
Run-IsFitting parsed s (escalates {s = t} run now id actor note) =
    escalate_case-IsFitting now id actor note t (Run-IsFitting parsed t run)
