-- ===== src/Referrals/Chain.antt =====
-- `getEffectiveReferralChain` of `ReferralService` (packages/domain/referrals/src/referral.service.ts).
use alice_uprm.Prelude.{
  ℕ, zero, suc, ◌+◌, ◌-◌, Bool, true, false, ◌&&◌, ◌||◌, Option, none, some, List, [], ◌∷◌, ◌++◌,
  map, ltb, leb, ◌==◌, if◌then◌else◌,
}
use alice_uprm.Prelude.Rows.{filter, member}
use alice_uprm.Prelude.Keyed.{by_id}
use alice_uprm.Referrals.Types.{ReferralAncestry, SourcedUser, Referrals}
use alice_uprm.Referrals.Edges.{is_descendant_row}
use alice_uprm.Prelude.Sorting.{sort_by}

pub data RelationType : Type 0 where
  referral_edge source_provenance : RelationType

pub record ChainEntry : Type 0 where
  pub tenant_id : ℕ
  pub ancestor_tenant_id : ℕ
  pub ancestor_id : ℕ
  pub descendant_id : ℕ
  pub depth : ℕ
  pub relation_type : RelationType
  pub created_at : ℕ

-- `orderBy: [{ depth: 'asc' }, { createdAt: 'asc' }]`
abbrev pub is_nearer : ReferralAncestry → ReferralAncestry → Bool
is_nearer a b = ltb a.depth b.depth || a.depth == b.depth && leb a.created_at b.created_at

abbrev pub is_in_reach : ℕ → ℕ → ℕ → ReferralAncestry → Bool
is_in_reach tenant_id descendant_id max_depth a =
    is_descendant_row tenant_id descendant_id a && (ltb 0 a.depth && leb a.depth max_depth)

abbrev pub edge_entry : ℕ → ℕ → ReferralAncestry → ChainEntry
edge_entry tenant_id descendant_id a = record {
  tenant_id = tenant_id;
  ancestor_tenant_id = tenant_id;
  ancestor_id = a.ancestor_id;
  descendant_id = descendant_id;
  depth = a.depth;
  relation_type = referral_edge;
  created_at = a.created_at;
}

-- The loop over the rows; `seen` holds the users seen before.
unfoldable pub explicit_entries : ℕ → ℕ → List ℕ → List ReferralAncestry → List ChainEntry
explicit_entries tenant_id descendant_id seen [] = []
explicit_entries tenant_id descendant_id seen (a ∷ rows) =
    let known = member a.ancestor_id seen in
    let rest =
      explicit_entries tenant_id descendant_id (if known then seen else a.ancestor_id ∷ seen)
        rows in
    if known then rest else edge_entry tenant_id descendant_id a ∷ rest

abbrev pub source_entry : ℕ → ℕ → ℕ → SourcedUser → ChainEntry
source_entry tenant_id descendant_id depth u = record {
  tenant_id = tenant_id;
  ancestor_tenant_id = u.tenant_id;
  ancestor_id = u.id;
  descendant_id = descendant_id;
  depth = depth;
  relation_type = source_provenance;
  created_at = u.joined_at;
}

unfoldable pub source_of : ℕ → List SourcedUser → Option SourcedUser
source_of user_id users = elim (by_id (λ u. u.id) user_id users) [
  | none ↦ none
  | some u ↦ elim u.source_tenant_user_id [ none ↦ none | some id ↦ by_id (λ v. v.id) id users ]
]

-- The `while` loop. It runs while the next depth is at most `maxDepth`: `left` depths are left.
unfoldable pub source_entries : ℕ → ℕ → ℕ → List SourcedUser → List ℕ → ℕ → ℕ → List ChainEntry
source_entries tenant_id descendant_id zero users seen cursor depth = []
source_entries tenant_id descendant_id (suc left) users seen cursor depth =
    elim (source_of cursor users) [
      | none ↦ []
      | some u ↦ elim (member u.id seen) [
        | true ↦ []
        | false ↦
            source_entry tenant_id descendant_id depth u
            ∷ source_entries tenant_id descendant_id left users (u.id ∷ seen) u.id (depth + 1)
      ]
    ]

-- `results.at(-1)`, with what stands for an empty list.
unfoldable pub last_of : ℕ → ℕ → List ChainEntry → ℕ × ℕ
last_of user depth [] = (user, depth)
last_of user depth (e ∷ es) = last_of e.ancestor_id e.depth es

abbrev pub entry_user : ChainEntry → ℕ
entry_user e = e.ancestor_id

unfoldable pub get_effective_referral_chain : ℕ → ℕ → ℕ → Referrals → List ChainEntry
get_effective_referral_chain tenant_id descendant_id max_depth s =
    let results =
      explicit_entries tenant_id descendant_id (descendant_id ∷ [])
        (sort_by is_nearer (filter (is_in_reach tenant_id descendant_id max_depth) s.ancestry)) in
    let last = last_of descendant_id 0 results in
    results
    ++ source_entries tenant_id descendant_id (max_depth - last.1) s.users
        (map entry_user results ++ descendant_id ∷ []) last.0 (last.1 + 1)

unfoldable pub get_referral_tree : ℕ → ℕ → ℕ → Referrals → List ChainEntry
get_referral_tree tenant_id ancestor_id max_depth s =
    get_effective_referral_chain tenant_id ancestor_id max_depth s
