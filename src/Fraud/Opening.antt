-- ===== src/Fraud/Opening.antt =====
-- A new case with its holds (`ensureOpenCase` of packages/domain/fraud/src/fraud.service.ts).
use alice_uprm.Prelude.{
  ℕ, ◌+◌, ◌≤◌, ◌<◌, ◌≡◌, refl, ◌∙◌, ◌⊎◌, inl, inr, Bool, true, false, some, List, [], ◌∷◌, ◌++◌,
  arith, ◌==◌, ==_iff, Bool-cases, All, All-append, All-imp,
}
use alice_uprm.Prelude.Rows.{filter, any, find-append_some, find-append_none, any-append}
use alice_uprm.Prelude.Keyed.{by_id, HasDistinctIds-append, HasIdsBelow-mono, by_id-fresh}
use alice_uprm.Fraud.Types.{RiskCase, RewardHold, HeldPosting, Risk}
use alice_uprm.Fraud.Views.{case_id, is_active_case}
use alice_uprm.Fraud.Signals.{
  CaseInput, case_row, is_pending_reward, hold_row, add_holds, open_new_case,
}
use alice_uprm.Fraud.Fitting.{Fits, HasSingleActive, IsFitting}

module _ (now : ℕ) (input : CaseInput) (case : ℕ) where
  abbrev one_held : HeldPosting → Risk → Risk
  one_held p s = record s {
    holds = s.holds ++ hold_row now s.next_id input case p ∷ [];
    next_id = s.next_id + 1;
  }

  -- The posting has a hold already, or gets one.
  add_holds-cons :
      (p : HeldPosting) (ps : List HeldPosting) (s : Risk)
      → (add_holds now input case (p ∷ ps) s ≡ add_holds now input case ps s)
        ⊎ (add_holds now input case (p ∷ ps) s ≡ add_holds now input case ps (one_held p s))
  unfolding add_holds
  add_holds-cons p ps s = elim (Bool-cases (any (λ h. h.scheduled_posting_id == p.id) s.holds)) [
    | inl held ↦ inl (rw (held, add_holds) refl)
    | inr free ↦ inr (rw (free, add_holds) refl)
  ]

  add_holds-cases :
      (ps : List HeldPosting) (s : Risk) → (add_holds now input case ps s).cases ≡ s.cases
  unfolding add_holds
  add_holds-cases [] s = refl
  add_holds-cases (p ∷ ps) s = elim (add_holds-cons p ps s) [
    | inl held ↦ rw held (add_holds-cases ps s)
    | inr free ↦ rw free (add_holds-cases ps (one_held p s))
  ]

  add_holds-next :
      (ps : List HeldPosting) (s : Risk) → s.next_id ≤ (add_holds now input case ps s).next_id
  unfolding add_holds
  add_holds-next [] s = omega arith
  add_holds-next (p ∷ ps) s = elim (add_holds-cons p ps s) [
    | inl held ↦ rw held (add_holds-next ps s)
    | inr free ↦ let later = add_holds-next ps (one_held p s) in rw free (omega (arith, later))
  ]

  add_holds-All :
      (P : RewardHold → Type 0) (ps : List HeldPosting) (s : Risk)
      → ((id : ℕ) (p : HeldPosting) → P (hold_row now id input case p))
      → All P s.holds
      → All P (add_holds now input case ps s).holds
  unfolding add_holds
  add_holds-All P [] s new h = h
  add_holds-All P (p ∷ ps) s new h = elim (add_holds-cons p ps s) [
    | inl held ↦ rw held (add_holds-All P ps s new h)
    | inr free ↦
        rw free
          (add_holds-All P ps (one_held p s) new (All-append P s.holds _ h (new s.next_id p, tt)))
  ]

  pub add_holds-any :
      (q : RewardHold → Bool) (ps : List HeldPosting) (s : Risk)
      → any q s.holds ≡ true
      → any q (add_holds now input case ps s).holds ≡ true
  unfolding add_holds
  add_holds-any q [] s h = h
  add_holds-any q (p ∷ ps) s h = elim (add_holds-cons p ps s) [
    | inl held ↦ rw held (add_holds-any q ps s h)
    | inr free ↦ rw free (add_holds-any q ps (one_held p s) (any-append q s.holds _ ∙ rw h refl))
  ]

single-append :
    (c : RiskCase) (cs : List RiskCase)
    → any (is_active_case c.tenant_id c.tenant_user_id) cs ≡ false
    → HasSingleActive cs
    → HasSingleActive (cs ++ c ∷ [])
unfolding is_active_case
single-append c [] h k = ((λ _. refl), tt)
single-append c (x ∷ xs) h k = (
  (λ on.
      let rest : any (is_active_case c.tenant_id c.tenant_user_id) xs ≡ false = ground arith in
      let apart : is_active_case x.tenant_id x.tenant_user_id c ≡ false = ground (arith, on) in
      any-append (is_active_case x.tenant_id x.tenant_user_id) xs (c ∷ [])
      ∙ rw (k.0 on, apart) refl),
  single-append c xs (ground arith) k.1,
)

module _ (now : ℕ) (input : CaseInput) (s : Risk) (h : IsFitting s)
    (free : any (is_active_case input.tenant_id input.tenant_user_id) s.cases ≡ false) where
  abbrev new_case : RiskCase
  new_case = case_row now s.next_id input

  abbrev with_case : Risk
  with_case = record s { cases = s.cases ++ new_case ∷ []; next_id = s.next_id + 1 }

  new-found : by_id case_id s.next_id with_case.cases ≡ some new_case
  unfolding case_row
  new-found =
      find-append_none _ s.cases (new_case ∷ []) (by_id-fresh case_id s.next_id s.cases h.below)
      ∙ rw ((==_iff s.next_id s.next_id).1 refl) refl

  old-Fits : (x : RewardHold) → Fits s.cases x → Fits with_case.cases x
  old-Fits x (c, found, fit) = (c, find-append_some _ s.cases (new_case ∷ []) c found, fit)

  new-Fits : (id : ℕ) (p : HeldPosting) → Fits with_case.cases (hold_row now id input s.next_id p)
  unfolding hold_row case_row
  new-Fits id p = (new_case, new-found, refl)

  pub open_new_case-IsFitting : IsFitting (open_new_case now input s).1
  unfolding open_new_case case_row
  open_new_case-IsFitting =
      let ps = filter (is_pending_reward input) s.postings in
      let cases = add_holds-cases now input s.next_id ps with_case in
      let next = add_holds-next now input s.next_id ps with_case in
      record {
        ids =
            rw cases (HasDistinctIds-append case_id s.next_id new_case s.cases refl h.below h.ids);
        below = rw cases (
            HasIdsBelow-mono case_id (s.next_id + 1)
              (add_holds now input s.next_id ps with_case).next_id with_case.cases next
              (All-append (λ c. c.id < s.next_id + 1) s.cases (new_case ∷ [])
                (HasIdsBelow-mono case_id s.next_id (s.next_id + 1) s.cases (omega arith) h.below)
                (omega arith, tt)));
        single = rw cases (single-append new_case s.cases free h.single);
        fits = rw cases (
            add_holds-All now input s.next_id (Fits with_case.cases) ps with_case new-Fits
              (All-imp _ _ s.holds old-Fits h.fits));
      }
