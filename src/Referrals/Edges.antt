-- ===== src/Referrals/Edges.antt =====
-- `applyCode` and `lockEdge` of `ReferralService` (packages/domain/referrals/src/referral.service.ts).
-- `now` is the clock of the call.
use alice_uprm.Prelude.{
  ℕ, ◌+◌, Bool, false, not, ◌&&◌, Option, none, some, List, [], ◌∷◌, ◌++◌, map, ltb, ◌==◌,
  if◌then◌else◌, is_some,
}
use alice_uprm.Prelude.Text.{codes, text_eq}
use alice_uprm.Prelude.Exec.{Error, ok, err, Exec, pure, gets, transaction, ◌>>=◌, ◌>>◌, modify}
use alice_uprm.Prelude.Rows.{find, filter, update_where, any}
use alice_uprm.Referrals.Types.{
  ReferralCode, ReferralEdge, ReferralAncestry, Referrals, ApplyCodeInput,
}
use alice_uprm.Referrals.Codes.{resolve_code}

unfoldable pub is_edge_of : ℕ → ℕ → ReferralEdge → Bool
is_edge_of tenant_id referred_id e = e.tenant_id == tenant_id && e.referred_id == referred_id

unfoldable pub find_edge : ℕ → ℕ → Referrals → Option ReferralEdge
find_edge tenant_id referred_id s = find (is_edge_of tenant_id referred_id) s.edges

unfoldable pub is_descendant_row : ℕ → ℕ → ReferralAncestry → Bool
is_descendant_row tenant_id descendant_id a =
    a.tenant_id == tenant_id && a.descendant_id == descendant_id

unfoldable pub edge_row : ℕ → ApplyCodeInput → ℕ → ℕ → ReferralEdge
edge_row id input referrer_id source_code_id = record {
  id = id;
  tenant_id = input.tenant_id;
  referrer_id = referrer_id;
  referred_id = input.referred_id;
  source_code_id = source_code_id;
  attribution_method = codes "code";
  locked_at = none;
}

-- `referralEdge.create`, with its unique index on the tenant and the referred user.
unfoldable pub insert_edge : ApplyCodeInput → ℕ → ℕ → Exec Referrals ReferralEdge
insert_edge input referrer_id source_code_id s =
    if any (is_edge_of input.tenant_id input.referred_id) s.edges
    then (err Error.unique_violation, s)
    else (
      ok (edge_row s.next_id input referrer_id source_code_id),
      record s {
        edges = s.edges ++ edge_row s.next_id input referrer_id source_code_id ∷ [];
        next_id = s.next_id + 1;
      },
    )

unfoldable pub ancestry_row : ℕ → ApplyCodeInput → ℕ → ℕ → ReferralAncestry
ancestry_row now input ancestor_id depth = record {
  tenant_id = input.tenant_id;
  ancestor_id = ancestor_id;
  descendant_id = input.referred_id;
  depth = depth;
  created_at = now;
}

-- The rows of the referrer's ancestors, each one level up.
unfoldable pub inherited_rows :
    ℕ → ApplyCodeInput → ℕ → List ReferralAncestry → List ReferralAncestry
inherited_rows now input referrer_id rows =
    map (λ a. ancestry_row now input a.ancestor_id (a.depth + 1))
      (filter (λ a. is_descendant_row input.tenant_id referrer_id a && ltb 0 a.depth) rows)

unfoldable pub is_same_key : ReferralAncestry → ReferralAncestry → Bool
is_same_key a b =
    a.tenant_id == b.tenant_id
    && a.descendant_id == b.descendant_id
    && a.ancestor_id == b.ancestor_id

-- `createMany` with `skipDuplicates`.
unfoldable pub add_ancestry : List ReferralAncestry → List ReferralAncestry → List ReferralAncestry
add_ancestry [] rows = rows
add_ancestry (a ∷ as_rows) rows =
    add_ancestry as_rows (if any (is_same_key a) rows then rows else rows ++ a ∷ [])

unfoldable pub ancestry_rows :
    ℕ → ApplyCodeInput → ℕ → List ReferralAncestry → List ReferralAncestry
ancestry_rows now input referrer_id rows =
    ancestry_row now input input.referred_id 0
    ∷ ancestry_row now input referrer_id 1
    ∷ inherited_rows now input referrer_id rows

unfoldable pub create_edge_with_ancestry : ℕ → ApplyCodeInput → ℕ → ℕ → Exec Referrals ReferralEdge
create_edge_with_ancestry now input referrer_id source_code_id = do
  edge ← insert_edge input referrer_id source_code_id
  rows ← gets (λ s. ancestry_rows now input referrer_id s.ancestry)
  modify (λ s. record s { ancestry = add_ancestry rows s.ancestry })
  pure edge

unfoldable pub is_expired : ℕ → ReferralCode → Bool
is_expired now c = elim c.expires_at [ none ↦ false | some t ↦ ltb t now ]

-- The cycle check, on the rows of the referrer.
unfoldable pub is_above : ApplyCodeInput → ℕ → List ReferralAncestry → Bool
is_above input referrer_id rows =
    any (λ a. is_descendant_row input.tenant_id referrer_id a && a.ancestor_id == input.referred_id)
      rows

-- Takes the edge and the rows of the referred user out.
unfoldable pub remove_edge : ApplyCodeInput → ℕ → Referrals → Referrals
remove_edge input edge_id s = record s {
  edges = filter (λ e. not (e.id == edge_id)) s.edges;
  ancestry = filter (λ a. not (is_descendant_row input.tenant_id input.referred_id a)) s.ancestry;
}

-- What follows the checks on the code.
unfoldable pub attach : ℕ → ApplyCodeInput → ReferralCode → Exec Referrals ReferralEdge
attach now input code s = elim (find_edge input.tenant_id input.referred_id s) [
  | none ↦ transaction (create_edge_with_ancestry now input code.tenant_user_id code.id) s
  | some e ↦
      if is_some e.locked_at
      then (err Error.edge_locked, s)
      else if e.referrer_id == code.tenant_user_id
      then (ok e, s)
      else transaction
          (do
            modify (remove_edge input e.id)
            create_edge_with_ancestry now input code.tenant_user_id code.id)
          s
]

unfoldable pub apply_found : ℕ → ApplyCodeInput → ReferralCode → Exec Referrals ReferralEdge
apply_found now input code s =
    if not (text_eq code.status (codes "active"))
    then (err Error.code_not_found, s)
    else if is_expired now code
    then (err Error.code_expired, s)
    else if code.tenant_user_id == input.referred_id
    then (err Error.self_referral, s)
    else if is_above input code.tenant_user_id s.ancestry
    then (err Error.cycle_detected, s)
    else attach now input code s

unfoldable pub apply_code : ℕ → ApplyCodeInput → Exec Referrals ReferralEdge
apply_code now input s = elim (resolve_code input.tenant_id input.code s) [
  | none ↦ (err Error.code_not_found, s)
  | some code ↦ apply_found now input code s
]

-- `referralEdge.update`, which throws where there is no edge.
unfoldable pub lock_edge : ℕ → ℕ → ℕ → Exec Referrals ReferralEdge
lock_edge now tenant_id referred_id s = elim (find_edge tenant_id referred_id s) [
  | none ↦ (err Error.record_not_found, s)
  | some e ↦ (
    ok (record e { locked_at = some now }),
    record s {
      edges =
          update_where (is_edge_of tenant_id referred_id) (λ x. record x { locked_at = some now })
            s.edges;
    },
  )
]
