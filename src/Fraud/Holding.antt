-- ===== src/Fraud/Holding.antt =====
-- Which rewards a new case holds (`ensureOpenCase` of packages/domain/fraud/src/fraud.service.ts).
use alice_uprm.Prelude.{
  ℕ, ◌+◌, ◌≡◌, refl, sym, ap, ◌∙◌, inl, inr, Bool, true, false, ◌&&◌, none, List, [], ◌∷◌, ◌++◌,
  arith, ◌==◌, ==_iff, Bool-cases,
}
use alice_uprm.Prelude.Exec.{ok}
use alice_uprm.Prelude.Rows.{find, filter, any, Has, any-append}
use alice_uprm.Fraud.Types.{open_case, RewardHold, HeldPosting, Risk, FraudCaseSummary}
use alice_uprm.Fraud.Views.{is_active_case, is_active_hold_of}
use alice_uprm.Fraud.Signals.{
  CaseInput, case_row, is_pending_reward, hold_row, add_holds, open_new_case, ensure_open_case,
}
use alice_uprm.Fraud.Opening.{add_holds-any}

abbrev pub is_hold_on : ℕ → RewardHold → Bool
is_hold_on posting_id h = h.scheduled_posting_id == posting_id

-- An active hold of the case on the posting.
abbrev pub holds_for : ℕ → ℕ → RewardHold → Bool
holds_for case posting_id h = is_hold_on posting_id h && is_active_hold_of case h

module _ (now : ℕ) (input : CaseInput) (case : ℕ) where
  abbrev IsHeldBy : Risk → HeldPosting → Type 0
  IsHeldBy s p = any (holds_for case p.id) s.holds ≡ true

  new-holds_for :
      (id : ℕ) (q p : HeldPosting)
      → (q.id == p.id) ≡ true
      → holds_for case p.id (hold_row now id input case q) ≡ true
  unfolding hold_row is_active_hold_of
  new-holds_for id q p same = ground arith

  new-other :
      (id : ℕ) (q p : HeldPosting)
      → (q.id == p.id) ≡ false
      → is_hold_on p.id (hold_row now id input case q) ≡ false
  unfolding hold_row
  new-other id q p other = other

  abbrev with_hold : HeldPosting → Risk → Risk
  with_hold q s = record s {
    holds = s.holds ++ hold_row now s.next_id input case q ∷ [];
    next_id = s.next_id + 1;
  }

  or_last :
      (p : RewardHold → Bool) (x : RewardHold) (xs : List RewardHold)
      → p x ≡ true
      → any p (xs ++ x ∷ []) ≡ true
  or_last p x [] h = rw h refl
  or_last p x (y ∷ ys) h = ground (arith, or_last p x ys h)

  add_holds-held :
      (q : HeldPosting) (ps : List HeldPosting) (s : Risk)
      → any (is_hold_on q.id) s.holds ≡ true
      → add_holds now input case (q ∷ ps) s ≡ add_holds now input case ps s
  unfolding add_holds
  add_holds-held q ps s held = rw (held, add_holds) refl

  add_holds-free :
      (q : HeldPosting) (ps : List HeldPosting) (s : Risk)
      → any (is_hold_on q.id) s.holds ≡ false
      → add_holds now input case (q ∷ ps) s ≡ add_holds now input case ps (with_hold q s)
  unfolding add_holds
  add_holds-free q ps s free = rw (free, add_holds) refl

  -- A posting without a hold gets one, when it is in the list.
  held_later :
      (p : HeldPosting) (ps : List HeldPosting) (s : Risk)
      → any (λ q. q.id == p.id) ps ≡ true
      → any (is_hold_on p.id) s.holds ≡ false
      → IsHeldBy (add_holds now input case ps s) p
  held_later p [] s there free = cc
  held_later p (q ∷ ps) s there free = elim (Bool-cases (any (is_hold_on q.id) s.holds)) [
    | inl held ↦
        let apart : (q.id == p.id) ≡ false = elim (Bool-cases (q.id == p.id)) [
          | inr other ↦ other
          | inl same ↦
              let e : q.id ≡ p.id = (==_iff q.id p.id).0 same in
              let both = sym (ap (λ i. any (is_hold_on i) s.holds) e) ∙ held in
              absurd (ground (arith, both, free))
        ] in
        rw (add_holds-held q ps s held) (held_later p ps s (ground (arith, apart, there)) free)
    | inr open_too ↦ elim (Bool-cases (q.id == p.id)) [
      | inl same ↦ rw (add_holds-free q ps s open_too) (
          add_holds-any now input case (holds_for case p.id) ps (with_hold q s)
            (or_last (holds_for case p.id) _ s.holds (new-holds_for s.next_id q p same)))
      | inr other ↦ rw (add_holds-free q ps s open_too) (
          held_later p ps (with_hold q s) (ground (arith, other, there)) (
            any-append (is_hold_on p.id) s.holds _ ∙ rw (free, new-other s.next_id q p other) refl))
    ]
  ]

selected :
    (input : CaseInput) (p : HeldPosting) (ps : List HeldPosting)
    → Has p ps
    → is_pending_reward input p ≡ true
    → any (λ q. q.id == p.id) (filter (is_pending_reward input) ps) ≡ true
selected input p [] h k = absurd h
selected input p (q ∷ ps) (inl here) k =
    let due : is_pending_reward input q ≡ true = rw here at k in
    rw due (rw ((==_iff q.id p.id).1 (ap (λ (x : HeldPosting). x.id) (sym here))) refl)
selected input p (q ∷ ps) (inr later) k = elim (Bool-cases (is_pending_reward input q)) [
  | inl due ↦ rw due (ground (arith, selected input p ps later k))
  | inr skipped ↦ rw skipped (selected input p ps later k)
]

-- For a user without an active case, ensureOpenCase opens one, and holds each pending reward of the
-- user that has no hold row yet. (A reward that has a released one is not held again.)
pub ensure_open_case-holds :
    (now : ℕ) (input : CaseInput) (s : Risk) (p : HeldPosting)
    → find (is_active_case input.tenant_id input.tenant_user_id) s.cases ≡ none
    → Has p s.postings
    → is_pending_reward input p ≡ true
    → any (is_hold_on p.id) s.holds ≡ false
    → let out = ensure_open_case now input s in
      (r : FraudCaseSummary) × (out.0 ≡ ok r)
      × (r.risk_case.status ≡ open_case)
      × (any (holds_for r.risk_case.id p.id) out.1.holds ≡ true)
unfolding ensure_open_case open_new_case case_row
ensure_open_case-holds now input s p free there due unheld =
    rw (free, ensure_open_case)
      (
        _,
        refl,
        refl,
        held_later now input s.next_id p (filter (is_pending_reward input) s.postings) _
            (selected input p s.postings there due) unheld,
      )
