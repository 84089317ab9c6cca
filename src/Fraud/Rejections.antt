-- ===== src/Fraud/Rejections.antt =====
-- What a rejection does to the held rewards (`rejectCase` of
-- packages/domain/fraud/src/fraud.service.ts).
use alice_uprm.Prelude.{
  ℕ, ◌≡◌, ◌≢◌, ◌⊎◌, Bool, Option, none, some, List, [], ◌∷◌, ◌==◌, ◌&&◌, All, take,
}
use alice_uprm.Prelude.Text.{Text, codes}
use alice_uprm.Prelude.Rows.{Has}
use alice_uprm.Fraud.Types.{RewardHold, hold_active, hold_rejected, pending, cancelled, HeldPosting}
use alice_uprm.Fraud.Views.{is_active_hold_of}

abbrev pub posting_id : HeldPosting → ℕ
posting_id p = p.id

-- The posting is pending, and the case has an active hold on it.
abbrev pub IsHeld : ℕ → List RewardHold → HeldPosting → Type 0
IsHeld id holds p =
    (p.status ≡ pending)
    × (h : RewardHold) × Has h holds
    × (h.risk_case_id ≡ id)
    × (h.status ≡ hold_active)
    × (h.scheduled_posting_id ≡ p.id)

-- The posting that a rejection leaves, field by field.
abbrev pub cancelled_for : Option Text → HeldPosting → HeldPosting
cancelled_for note p = record p {
  status = cancelled;
  cancel_reason =
      some (elim note [ none ↦ codes "fraud_case_rejected" | some text ↦ take 256 text ]);
}

module _ (id : ℕ) (holds : List RewardHold) (p : HeldPosting) where
  abbrev holds_it : RewardHold → Bool
  holds_it h = is_active_hold_of id h && h.scheduled_posting_id == p.id

-- What becomes of a posting, and of the holds.
abbrev pub IsSettled : ℕ → Option Text → List RewardHold → HeldPosting → HeldPosting → Type 0
IsSettled id note holds p q =
    (IsHeld id holds p × (q ≡ cancelled_for note p)) ⊎ ((IsHeld id holds p → ⊥) × (q ≡ p))

abbrev pub IsFreeOf : ℕ → List RewardHold → Type 0
IsFreeOf id holds = All (λ h. h.risk_case_id ≢ id ⊎ h.status ≢ hold_active) holds

-- The active holds of the case are rejected, and the other ones are as they were.
abbrev pub AreRejected : ℕ → ℕ → List RewardHold → List RewardHold → Type 0
AreRejected now id [] [] = Unit
AreRejected now id (h ∷ hs) (k ∷ ks) =
    (((h.risk_case_id ≡ id)
        × (h.status ≡ hold_active)
        × (k ≡ record h { status = hold_rejected; rejected_at = some now }))
      ⊎ ((h.risk_case_id ≢ id ⊎ h.status ≢ hold_active) × (k ≡ h)))
    × AreRejected now id hs ks
AreRejected now id _ _ = ⊥
