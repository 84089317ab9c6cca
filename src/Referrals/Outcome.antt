-- ===== src/Referrals/Outcome.antt =====
-- What a call of `applyCode` does (packages/domain/referrals/src/referral.service.ts).
use alice_uprm.Prelude.{
  ℕ, ◌≡◌, refl, ◌∙◌, ◌≢◌, inl, inr, true, false, none, some, arith, ◌==◌, is_some, Bool-cases,
  Option-cases,
}
use alice_uprm.Prelude.Text.{codes, text_eq}
use alice_uprm.Prelude.Exec.{Error, ok, err, Exec, transaction, ◌>>◌, modify, transaction-of_ok}
use alice_uprm.Prelude.Rows.{any}
use alice_uprm.Referrals.Types.{ReferralCode, ReferralEdge, Referrals, ApplyCodeInput}
use alice_uprm.Referrals.Codes.{resolve_code}
use alice_uprm.Referrals.Edges.{
  is_edge_of, find_edge, create_edge_with_ancestry, is_expired, is_above, remove_edge, attach,
  apply_found, apply_code,
}
use alice_uprm.Referrals.Consistent.{IsConsistent, remove_edge-IsConsistent}
use alice_uprm.Referrals.Applied.{
  KeepsLocked, Outcome, KeepsLocked-same, create_run, find-none, remove_edge-KeepsLocked,
  Applied-new, above-remove,
}

module _ (now : ℕ) (input : ApplyCodeInput) (code : ReferralCode) (s : Referrals) where
  abbrev create : Exec Referrals ReferralEdge
  create = create_edge_with_ancestry now input code.tenant_user_id code.id

  attach-new :
      find_edge input.tenant_id input.referred_id s ≡ none
      → attach now input code s ≡ transaction create s
  unfolding attach
  attach-new absent = rw (absent, attach) refl

  attach-moved :
      (e : ReferralEdge)
      → find_edge input.tenant_id input.referred_id s ≡ some e
      → is_some e.locked_at ≡ false
      → (e.referrer_id == code.tenant_user_id) ≡ false
      → attach now input code s ≡ transaction (modify (remove_edge input e.id) >> create) s
  unfolding attach
  attach-moved e found free other = rw (found, free, other, attach) refl

  attach-locked :
      (e : ReferralEdge)
      → find_edge input.tenant_id input.referred_id s ≡ some e
      → is_some e.locked_at ≡ true
      → attach now input code s ≡ (err Error.edge_locked, s)
  unfolding attach
  attach-locked e found shut = rw (found, shut, attach) refl

  attach-same :
      (e : ReferralEdge)
      → find_edge input.tenant_id input.referred_id s ≡ some e
      → is_some e.locked_at ≡ false
      → (e.referrer_id == code.tenant_user_id) ≡ true
      → attach now input code s ≡ (ok e, s)
  unfolding attach
  attach-same e found free same = rw (found, free, same, attach) refl

  module _ (resolved : resolve_code input.tenant_id input.code s ≡ some code) (h : IsConsistent s)
      (apart : code.tenant_user_id ≢ input.referred_id)
      (above : is_above input code.tenant_user_id s.ancestry ≡ false) where
    -- An edge made on tables that keep the locked edges of `s`.
    Outcome-create :
        (s0 : Referrals)
        → IsConsistent s0
        → KeepsLocked s s0
        → is_above input code.tenant_user_id s0.ancestry ≡ false
        → any (is_edge_of input.tenant_id input.referred_id) s0.edges ≡ false
        → (m : Exec Referrals ReferralEdge) → m s ≡ create s0
        → attach now input code s ≡ transaction m s
        → Outcome input s (attach now input code s)
    Outcome-create s0 h0 keeps above0 free m start run =
        let made = create_run now input code.tenant_user_id code.id s0 free in
        let done = run ∙ transaction-of_ok m s _ _ (start ∙ made) in
        rw done
          (inr (code, _, refl, Applied-new now input code s s0 resolved h0 keeps apart above0 free))

    attach-Outcome : Outcome input s (attach now input code s)
    unfolding find_edge
    attach-Outcome = elim (Option-cases (find_edge input.tenant_id input.referred_id s)) [
      | inl absent ↦
          Outcome-create s h (KeepsLocked-same s) above (find-none _ s.edges absent) create refl
            (attach-new absent)
      | inr (e, found) ↦ elim (Bool-cases (is_some e.locked_at)) [
        | inl shut ↦ inl (Error.edge_locked, attach-locked e found shut)
        | inr free ↦ elim (Bool-cases (e.referrer_id == code.tenant_user_id)) [
          | inl same ↦ rw (attach-same e found free same) (
              inr (
                code,
                e,
                refl,
                record {
                  resolved = resolved;
                  stored = found;
                  referrer = ground arith;
                  apart = apart;
                  consistent = h;
                  locked = KeepsLocked-same s;
                },
              ))
          | inr other ↦
              let (clean, none_left) = remove_edge-IsConsistent input e s found h in
              Outcome-create (remove_edge input e.id s) clean
                (remove_edge-KeepsLocked input e s h found free)
                (above-remove input code.tenant_user_id e.id s above) none_left
                (modify (remove_edge input e.id) >> create) refl (attach-moved e found free other)
        ]
      ]
    ]

  -- The checks on the code, in their order.
  module _ (active : text_eq code.status (codes "active") ≡ true) where
    found-expired :
        is_expired now code ≡ true → apply_found now input code s ≡ (err Error.code_expired, s)
    unfolding apply_found
    found-expired late = rw (active, late) refl

    module _ (valid : is_expired now code ≡ false) where
      found_self :
          (code.tenant_user_id == input.referred_id) ≡ true
          → apply_found now input code s ≡ (err Error.self_referral, s)
      unfolding apply_found
      found_self same = rw (active, valid, same) refl

      found-cycle :
          (code.tenant_user_id == input.referred_id) ≡ false
          → is_above input code.tenant_user_id s.ancestry ≡ true
          → apply_found now input code s ≡ (err Error.cycle_detected, s)
      unfolding apply_found
      found-cycle other up = rw (active, valid, other, up) refl

      found-attach :
          (code.tenant_user_id == input.referred_id) ≡ false
          → is_above input code.tenant_user_id s.ancestry ≡ false
          → apply_found now input code s ≡ attach now input code s
      unfolding apply_found
      found-attach other free = rw (active, valid, other, free) refl

  found-inactive :
      text_eq code.status (codes "active") ≡ false
      → apply_found now input code s ≡ (err Error.code_not_found, s)
  unfolding apply_found
  found-inactive inactive = rw inactive refl

  apply_found-Outcome :
      resolve_code input.tenant_id input.code s ≡ some code
      → IsConsistent s
      → Outcome input s (apply_found now input code s)
  apply_found-Outcome resolved h = elim (Bool-cases (text_eq code.status (codes "active"))) [
    | inr inactive ↦ inl (Error.code_not_found, found-inactive inactive)
    | inl active ↦ elim (Bool-cases (is_expired now code)) [
      | inl late ↦ inl (Error.code_expired, found-expired active late)
      | inr valid ↦ elim (Bool-cases (code.tenant_user_id == input.referred_id)) [
        | inl same ↦ inl (Error.self_referral, found_self active valid same)
        | inr other ↦ elim (Bool-cases (is_above input code.tenant_user_id s.ancestry)) [
          | inl up ↦ inl (Error.cycle_detected, found-cycle active valid other up)
          | inr free ↦
              rw (found-attach active valid other free)
                (attach-Outcome resolved h (ground arith) free)
        ]
      ]
    ]
  ]

-- A call of applyCode on consistent tables throws and changes nothing, or returns the edge of the
-- referred user under the owner of the code, who is another user, and leaves the tables consistent and
-- every locked edge in place.
pub apply_code-Outcome :
    (now : ℕ) (input : ApplyCodeInput) (s : Referrals)
    → IsConsistent s
    → Outcome input s (apply_code now input s)
unfolding apply_code
apply_code-Outcome now input s h = elim (Option-cases (resolve_code input.tenant_id input.code s)) [
  | inl absent ↦ inl (Error.code_not_found, rw (absent, apply_code) refl)
  | inr (code, resolved) ↦
      let run : apply_code now input s ≡ apply_found now input code s =
        rw (resolved, apply_code) refl in
      rw run (apply_found-Outcome now input code s resolved h)
]
