-- ===== src/Fraud/Fitting.antt =====
-- Cases and holds that fit together, and a change of one case
-- (packages/domain/fraud/src/fraud.service.ts).
use alice_uprm.Prelude.{
  ℕ, ◌≡◌, refl, sym, ap, ◌∙◌, inl, inr, Bool, true, false, some, List, [], ◌∷◌, arith, ◌==◌, ==_iff,
  Bool-cases, All, All-imp,
}
use alice_uprm.Prelude.Rows.{update_where, any, any-update_where-false}
use alice_uprm.Prelude.Keyed.{
  by_id, update_id, HasDistinctIds, HasIdsBelow, by_id_self, by_id-update_id, update_where-ids,
  update_where-distinct,
}
use alice_uprm.Fraud.Types.{
  FraudCaseStatus, open_case, allowed, rejected, escalated, RiskCase, RewardHoldStatus, hold_active,
  hold_released, hold_rejected, RewardHold, Risk,
}
use alice_uprm.Fraud.Views.{
  is_active_case_status, is_active_hold_status, case_id, is_active_case, is_active_hold_of,
}

-- A hold is active as long as its case is, and ends as its case does.
abbrev pub agrees : RewardHoldStatus → FraudCaseStatus → Bool
agrees hold_active t = is_active_case_status t
agrees hold_released allowed = true
agrees hold_rejected rejected = true
agrees _ _ = false

abbrev pub Fits : List RiskCase → RewardHold → Type 0
Fits cases h =
    (c : RiskCase) × (by_id case_id h.risk_case_id cases ≡ some c)
    × (agrees h.status c.status ≡ true)

-- One active case at most for a user of a tenant.
abbrev pub HasSingleActive : List RiskCase → Type 0
HasSingleActive [] = Unit
HasSingleActive (c ∷ cs) =
    (is_active_case_status c.status ≡ true
      → any (is_active_case c.tenant_id c.tenant_user_id) cs ≡ false)
    × HasSingleActive cs

pub record IsFitting (s : Risk) : Type 0 where
  pub ids : HasDistinctIds case_id s.cases
  pub below : HasIdsBelow case_id s.next_id s.cases
  pub single : HasSingleActive s.cases
  pub fits : All (Fits s.cases) s.holds

-- A row with the id of the row that is found is that row.
only_found :
    (id : ℕ) (c : RiskCase) (cs : List RiskCase)
    → HasDistinctIds case_id cs
    → by_id case_id id cs ≡ some c
    → All (λ x. (x.id == id) ≡ true → x ≡ c) cs
only_found id c cs d found = All-imp _ _ cs same (by_id_self case_id cs d)
  where
    same : (x : RiskCase) → by_id case_id x.id cs ≡ some x → (x.id == id) ≡ true → x ≡ c
    same x own k =
        let e : x.id ≡ id = (==_iff x.id id).0 k in
        let both : some c ≡ some x = sym found ∙ sym (ap (λ i. by_id case_id i cs) e) ∙ own in cc

-- A change of the case, which was active, that keeps its columns but for the outcome.
module _ (id : ℕ) (c : RiskCase) (f : RiskCase → RiskCase)
    (keeps_id : (x : RiskCase) → (f x).id ≡ x.id)
    (keeps_key : (x : RiskCase)
      → ((f x).tenant_id ≡ x.tenant_id) × ((f x).tenant_user_id ≡ x.tenant_user_id))
    (active : is_active_case_status c.status ≡ true) where
  still_none :
      (t u : ℕ) (cs : List RiskCase)
      → All (λ x. (x.id == id) ≡ true → x ≡ c) cs
      → any (is_active_case t u) cs ≡ false
      → any (is_active_case t u) (update_id case_id id f cs) ≡ false
  unfolding is_active_case
  still_none t u cs only none_there =
      any-update_where-false (is_active_case t u) (λ x. x.id == id) f cs
        (All-imp _ _ cs was_active only) none_there
    where
      was_active :
          (x : RiskCase)
          → ((x.id == id) ≡ true → x ≡ c)
          → (x.id == id) ≡ true
          → is_active_case t u (f x) ≡ true
          → is_active_case t u x ≡ true
      was_active x same hit k =
          let row = same hit in
          let (tenant, user) = keeps_key x in
          let on : is_active_case_status x.status ≡ true = rw row active in
          ground (arith, tenant, user, on)

  single-update :
      (cs : List RiskCase)
      → All (λ x. (x.id == id) ≡ true → x ≡ c) cs
      → HasSingleActive cs
      → HasSingleActive (update_id case_id id f cs)
  single-update [] only h = tt
  single-update (x ∷ xs) only h = elim (Bool-cases (x.id == id)) [
    | inl hit ↦
        let row = only.0 hit in
        let (tenant, user) = keeps_key x in
        rw hit (
          (λ _.
              rw (tenant, user)
                (still_none x.tenant_id x.tenant_user_id xs only.1 (h.0 (rw row active)))),
          single-update xs only.1 h.1,
        )
    | inr miss ↦ rw miss (
      (λ k. still_none x.tenant_id x.tenant_user_id xs only.1 (h.0 k)),
      single-update xs only.1 h.1,
    )
  ]

  -- A hold of another case stands; a hold of this case was active, and fits what the case becomes.
  Fits-other :
      (cs : List RiskCase) (h : RewardHold)
      → by_id case_id id cs ≡ some c
      → is_active_hold_of id h ≡ false
      → Fits cs h
      → Fits (update_id case_id id f cs) h
  unfolding is_active_hold_of
  Fits-other cs h found idle (d, there, fit) = elim (Bool-cases (h.risk_case_id == id)) [
    | inl here ↦
        let e : h.risk_case_id ≡ id = (==_iff h.risk_case_id id).0 here in
        let both : some c ≡ some d = sym found ∙ rw e at there in
        let row : c ≡ d = cc in
        let ended : is_active_hold_status h.status ≡ false = ground arith in
        absurd (not_ended h.status d.status (rw row at active) ended fit)
    | inr elsewhere ↦ (
      d,
      by_id-update_id case_id f keeps_id h.risk_case_id id cs ∙ rw (elsewhere, there) refl,
      fit,
    )
  ]
    where
      not_ended :
          (a : RewardHoldStatus) (t : FraudCaseStatus)
          → is_active_case_status t ≡ true
          → is_active_hold_status a ≡ false
          → agrees a t ≡ true
          → ⊥
      not_ended hold_active t on ended fit = absurd (ground arith)
      not_ended hold_released open_case on ended fit = absurd (ground arith)
      not_ended hold_released escalated on ended fit = absurd (ground arith)
      not_ended hold_released allowed on ended fit = absurd (ground arith)
      not_ended hold_released rejected on ended fit = absurd (ground arith)
      not_ended hold_rejected open_case on ended fit = absurd (ground arith)
      not_ended hold_rejected escalated on ended fit = absurd (ground arith)
      not_ended hold_rejected allowed on ended fit = absurd (ground arith)
      not_ended hold_rejected rejected on ended fit = absurd (ground arith)

  Fits-own :
      (cs : List RiskCase) (h : RewardHold) (g : RewardHold → RewardHold)
      → by_id case_id id cs ≡ some c
      → is_active_hold_of id h ≡ true
      → (g h).risk_case_id ≡ h.risk_case_id
      → agrees (g h).status (f c).status ≡ true
      → Fits (update_id case_id id f cs) (g h)
  unfolding is_active_hold_of
  Fits-own cs h g found mine keeps fit =
      let e : h.risk_case_id ≡ id = ground arith in
      let self : (id == id) ≡ true = (==_iff id id).1 refl in
      (
        f c,
        rw (keeps, e) (by_id-update_id case_id f keeps_id id id cs ∙ rw (self, found) refl),
        fit,
      )

module _ (id : ℕ) (c : RiskCase) (f : RiskCase → RiskCase) (g : RewardHold → RewardHold) (s : Risk)
    (keeps_id : (x : RiskCase) → (f x).id ≡ x.id)
    (keeps_key : (x : RiskCase)
      → ((f x).tenant_id ≡ x.tenant_id) × ((f x).tenant_user_id ≡ x.tenant_user_id))
    (keeps_case : (h : RewardHold) → (g h).risk_case_id ≡ h.risk_case_id)
    (found : by_id case_id id s.cases ≡ some c) (active : is_active_case_status c.status ≡ true)
    (fit : (h : RewardHold)
      → is_active_hold_of id h ≡ true
      → agrees (g h).status (f c).status ≡ true) where
  Fits-All :
      (hs : List RewardHold)
      → All (Fits s.cases) hs
      → All (Fits (update_id case_id id f s.cases)) (update_where (is_active_hold_of id) g hs)
  Fits-All [] k = tt
  Fits-All (h ∷ hs) k = (
    elim (Bool-cases (is_active_hold_of id h)) [
      | inl mine ↦ rw mine (
          Fits-own id c f keeps_id keeps_key active s.cases h g found mine (keeps_case h)
            (fit h mine))
      | inr other ↦ rw other (Fits-other id c f keeps_id keeps_key active s.cases h found other k.0)
    ],
    Fits-All hs k.1,
  )

  -- The case and its active holds change together.
  pub change-IsFitting :
      IsFitting s
      → IsFitting (record s {
        cases = update_id case_id id f s.cases;
        holds = update_where (is_active_hold_of id) g s.holds;
      })
  change-IsFitting h = record {
    ids = update_where-distinct case_id f keeps_id (λ x. x.id == id) s.cases h.ids;
    below = update_where-ids case_id f keeps_id s.next_id (λ x. x.id == id) s.cases h.below;
    single =
        single-update id c f keeps_id keeps_key active s.cases (only_found id c s.cases h.ids found)
          h.single;
    fits = Fits-All s.holds h.fits;
  }
