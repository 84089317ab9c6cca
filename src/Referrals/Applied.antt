-- ===== src/Referrals/Applied.antt =====
-- The tables after an edge was made or moved (`applyCode` of
-- packages/domain/referrals/src/referral.service.ts).
use alice_uprm.Prelude.{
  ℕ, ◌+◌, ◌≡◌, refl, sym, ap, ◌∙◌, ◌≢◌, ◌⊎◌, inl, inr, Bool, true, false, not, ◌&&◌, none, some,
  List, [], ◌∷◌, ◌++◌, arith, ◌==◌, is_some, Bool-cases,
}
use alice_uprm.Prelude.Exec.{Error, Result, ok, err, pure, gets, ◌>>=◌, ◌>>◌, modify, >>=-of_ok}
use alice_uprm.Prelude.Rows.{
  find, any, find-append_some, find-append_none, find-filter, any-filter-false,
}
use alice_uprm.Referrals.Types.{ReferralCode, ReferralEdge, Referrals, ApplyCodeInput}
use alice_uprm.Referrals.Codes.{resolve_code}
use alice_uprm.Referrals.Edges.{
  is_edge_of, find_edge, edge_row, insert_edge, add_ancestry, ancestry_rows,
  create_edge_with_ancestry, is_above, remove_edge,
}
use alice_uprm.Referrals.Consistent.{IsConsistent, filter-edge}
use alice_uprm.Referrals.Attach.{added_edge, attached, attached-IsConsistent}

-- A locked edge of `s` is one of `s'`, with its referrer and its id.
abbrev pub KeepsLocked : Referrals → Referrals → Type 0
KeepsLocked s s' =
    (t u : ℕ) (e : ReferralEdge)
    → find_edge t u s ≡ some e
    → is_some e.locked_at ≡ true
    → (f : ReferralEdge) × (find_edge t u s' ≡ some f)
      × (is_some f.locked_at ≡ true)
      × (f.id ≡ e.id)
      × (f.referrer_id ≡ e.referrer_id)

-- The call returned the edge of the referred user, under the owner of the code.
pub record IsApplied (input : ApplyCodeInput) (code : ReferralCode) (s : Referrals)
    (e : ReferralEdge) (s' : Referrals) : Type 0 where
  pub resolved : resolve_code input.tenant_id input.code s ≡ some code
  pub stored : find_edge input.tenant_id input.referred_id s' ≡ some e
  pub referrer : e.referrer_id ≡ code.tenant_user_id
  pub apart : code.tenant_user_id ≢ input.referred_id
  pub consistent : IsConsistent s'
  pub locked : KeepsLocked s s'

abbrev pub Outcome : ApplyCodeInput → Referrals → Result ReferralEdge × Referrals → Type 0
Outcome input s out =
    ((x : Error) × (out ≡ (err x, s)))
    ⊎ ((code : ReferralCode) × (e : ReferralEdge) × (out.0 ≡ ok e) × IsApplied input code s e out.1)

pub KeepsLocked-same : (s : Referrals) → KeepsLocked s s
KeepsLocked-same s t u e found locked = (e, found, locked, refl, refl)

insert_run :
    (input : ApplyCodeInput) (referrer code_id : ℕ) (s : Referrals)
    → any (is_edge_of input.tenant_id input.referred_id) s.edges ≡ false
    → insert_edge input referrer code_id s ≡ (
      ok (added_edge input referrer code_id s),
      record s {
        edges = s.edges ++ added_edge input referrer code_id s ∷ [];
        next_id = s.next_id + 1;
      },
    )
unfolding insert_edge
insert_run input referrer code_id s free = rw free refl

pub create_run :
    (now : ℕ) (input : ApplyCodeInput) (referrer code_id : ℕ) (s : Referrals)
    → any (is_edge_of input.tenant_id input.referred_id) s.edges ≡ false
    → create_edge_with_ancestry now input referrer code_id s
      ≡ (ok (added_edge input referrer code_id s), attached now input referrer code_id s)
unfolding create_edge_with_ancestry
create_run now input referrer code_id s free =
    >>=-of_ok (insert_edge input referrer code_id)
      (λ edge. gets (λ s'. ancestry_rows now input referrer s'.ancestry) >>= λ rows.
        modify (λ s'. record s' { ancestry = add_ancestry rows s'.ancestry }) >> pure edge)
      s (added_edge input referrer code_id s) _ (insert_run input referrer code_id s free)

attached_found :
    (now : ℕ) (input : ApplyCodeInput) (referrer code_id : ℕ) (s : Referrals)
    → find_edge input.tenant_id input.referred_id s ≡ none
    → find_edge input.tenant_id input.referred_id (attached now input referrer code_id s)
      ≡ some (added_edge input referrer code_id s)
unfolding find_edge is_edge_of edge_row
attached_found now input referrer code_id s absent =
    find-append_none _ s.edges (added_edge input referrer code_id s ∷ []) absent ∙ ground arith

attached-KeepsLocked :
    (now : ℕ) (input : ApplyCodeInput) (referrer code_id : ℕ) (s : Referrals)
    → KeepsLocked s (attached now input referrer code_id s)
unfolding find_edge
attached-KeepsLocked now input referrer code_id s t u e found locked =
    (e, find-append_some _ s.edges _ e found, locked, refl, refl)

pub find-none :
    (p : ReferralEdge → Bool) (es : List ReferralEdge) → find p es ≡ none → any p es ≡ false
find-none p [] h = refl
find-none p (x ∷ xs) h = elim (Bool-cases (p x)) [
  | inl here ↦ let hit : some x ≡ none = rw here at h in cc
  | inr there ↦ rw there (find-none p xs (rw there at h))
]

none-find : (p : ReferralEdge → Bool) (es : List ReferralEdge) → any p es ≡ false → find p es ≡ none
none-find p [] h = refl
none-find p (x ∷ xs) h = ground (arith, none-find p xs)

-- Taking the edge of a user out keeps the edges of the others.
pub remove_edge-KeepsLocked :
    (input : ApplyCodeInput) (e : ReferralEdge) (s : Referrals)
    → IsConsistent s
    → find_edge input.tenant_id input.referred_id s ≡ some e
    → is_some e.locked_at ≡ false
    → KeepsLocked s (remove_edge input e.id s)
unfolding find_edge remove_edge is_edge_of
remove_edge-KeepsLocked input e s h found free t u f there locked =
    elim (Bool-cases (t == input.tenant_id && u == input.referred_id)) [
      | inl same ↦
          let tenant : t ≡ input.tenant_id = ground arith in
          let user : u ≡ input.referred_id = ground arith in
          let both : some f ≡ some e = sym (rw (tenant, user) at there) ∙ found in
          let row : f ≡ e = cc in absurd (ground (arith, row))
      | inr other ↦
          let kept : (x : ReferralEdge)
              → is_edge_of t u x ≡ true
              → not (is_edge_of input.tenant_id input.referred_id x) ≡ true =
            λ x k. ground arith in
          (
            f,
            ap (find (is_edge_of t u))
                  (filter-edge input.tenant_id input.referred_id e s.edges h.ids h.one_each found)
                ∙ find-filter (is_edge_of t u) _ s.edges kept
                ∙ there,
            locked,
            refl,
            refl,
          )
    ]

pub Applied-new :
    (now : ℕ) (input : ApplyCodeInput) (code : ReferralCode) (s s0 : Referrals)
    → resolve_code input.tenant_id input.code s ≡ some code
    → IsConsistent s0
    → KeepsLocked s s0
    → code.tenant_user_id ≢ input.referred_id
    → is_above input code.tenant_user_id s0.ancestry ≡ false
    → any (is_edge_of input.tenant_id input.referred_id) s0.edges ≡ false
    → IsApplied input code s
        (added_edge input code.tenant_user_id code.id s0)
        (attached now input code.tenant_user_id code.id s0)
unfolding find_edge edge_row
Applied-new now input code s s0 resolved h keeps apart above free = record {
  resolved = resolved;
  stored = attached_found now input code.tenant_user_id code.id s0 (none-find _ s0.edges free);
  referrer = refl;
  apart = apart;
  consistent = attached-IsConsistent now input code.tenant_user_id code.id s0 h apart above free;
  locked = λ t u e found locked.
      let (f, there, still, id, referrer) = keeps t u e found locked in
      let (g, there_too, still_too, id_too, referrer_too) =
        attached-KeepsLocked now input code.tenant_user_id code.id s0 t u f there still in
      (g, there_too, still_too, id_too ∙ id, referrer_too ∙ referrer);
}

pub above-remove :
    (input : ApplyCodeInput) (referrer edge : ℕ) (s : Referrals)
    → is_above input referrer s.ancestry ≡ false
    → is_above input referrer (remove_edge input edge s).ancestry ≡ false
unfolding is_above remove_edge
above-remove input referrer edge s above = any-filter-false _ _ s.ancestry above
