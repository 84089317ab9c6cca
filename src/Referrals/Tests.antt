-- ===== src/Referrals/Tests.antt =====
-- Runs of the referral service (packages/domain/referrals/src/referral.service.ts).
use alice_uprm.Prelude.{ℕ, ◌≡◌, refl, ◌≢◌, none, some, List, [], ◌∷◌, map, length, All}
use alice_uprm.Prelude.Text.{Text, codes, text_eq}
use alice_uprm.Prelude.Exec.{try_catch}
use alice_uprm.Referrals.Types.{ReferralEdge, Referrals, CreateCodeInput, ApplyCodeInput}
use alice_uprm.Referrals.Codes.{
  letter_at, generate_code, is_code_of, code_row, insert_code, create_attempts, create_code,
  resolve_code,
}
use alice_uprm.Referrals.Edges.{
  is_edge_of, find_edge, is_descendant_row, edge_row, insert_edge, ancestry_row, inherited_rows,
  is_same_key, add_ancestry, ancestry_rows, create_edge_with_ancestry, is_expired, is_above, attach,
  apply_found, apply_code,
}
use alice_uprm.Referrals.Consistent.{IsConsistent}
use alice_uprm.Referrals.Applied.{Outcome}
use alice_uprm.Referrals.Outcome.{apply_code-Outcome}
use alice_uprm.Referrals.Drawn.{IsLetter, generate_code-IsLetter, Drawn, create_code-Drawn}
use alice_uprm.Referrals.Chain.{
  ChainEntry, explicit_entries, source_of, source_entries, last_of, get_effective_referral_chain,
}
use alice_uprm.Referrals.Levels.{HasDistinctUsers, IsWithin, get_effective_referral_chain-levels}
use alice_uprm.Referrals.Run.{none_yet, creates, applies, IsKept, Calls-IsKept}
use alice_uprm.Prelude.Sorting.{sort_by, insert_by}

abbrev empty : Referrals
empty = record {
  codes = [];
  edges = [];
  ancestry = [];
  users =
      record { id = 1; tenant_id = 7; source_tenant_user_id = some 9; joined_at = 10 }
      ∷ record { id = 9; tenant_id = 8; source_tenant_user_id = none; joined_at = 5 }
      ∷ [];
  next_id = 100;
}

empty-IsConsistent : IsConsistent empty
empty-IsConsistent = record {
  ids = tt;
  below = tt;
  one_each = tt;
  apart = tt;
  direct = tt;
  owned = tt;
  one_way = tt;
}

abbrev owner : ℕ → CreateCodeInput
owner u = record { tenant_id = 7; tenant_user_id = u; expires_at = none }

-- A byte for each attempt and user.
abbrev bytes_of : ℕ → ℕ → List ℕ
bytes_of u attempt = u ∷ attempt ∷ []

abbrev with_codes : Referrals
with_codes =
    (create_code (bytes_of 4) (owner 4)
      (create_code (bytes_of 2) (owner 2) (create_code (bytes_of 1) (owner 1) empty).1).1).1

abbrev apply : ℕ → Text → ApplyCodeInput
apply u code = record { tenant_id = 7; referred_id = u; code = code }

-- User 2 refers 4, then 1 refers 2, and then 4 refers 1.
abbrev referred : Referrals
referred =
    (apply_code 50 (apply 2 (codes "BA")) (apply_code 40 (apply 4 (codes "CA")) with_codes).1).1

abbrev closed : Referrals
closed = (apply_code 60 (apply 1 (codes "EA")) referred).1

abbrev pair_of : ReferralEdge → ℕ × ℕ
pair_of e = (e.referrer_id, e.referred_id)

-- The cycle check does not see the row that user 4 lacks, and the edges form a cycle.
cycle_of_three : map pair_of closed.edges ≡ (2, 4) ∷ (1, 2) ∷ (4, 1) ∷ []
unfolding create_code create_attempts try_catch insert_code generate_code letter_at code_row
    resolve_code is_code_of apply_code apply_found is_expired is_above attach find_edge
    create_edge_with_ancestry insert_edge edge_row ancestry_rows ancestry_row inherited_rows
    add_ancestry is_same_key is_edge_of is_descendant_row text_eq
cycle_of_three = refl

abbrev level_of : ChainEntry → ℕ × ℕ
level_of e = (e.ancestor_id, e.depth)

chain_of_two : map level_of (get_effective_referral_chain 7 2 3 referred) ≡ (1, 1) ∷ (9, 2) ∷ []
unfolding create_code create_attempts try_catch insert_code generate_code letter_at code_row
    resolve_code is_code_of apply_code apply_found is_expired is_above attach find_edge
    create_edge_with_ancestry insert_edge edge_row ancestry_rows ancestry_row inherited_rows
    add_ancestry is_same_key is_edge_of is_descendant_row text_eq get_effective_referral_chain
    sort_by insert_by explicit_entries source_entries source_of last_of
chain_of_two = refl

Calls-IsKept_example :
    IsKept empty
      (apply_code 40 (apply 4 (codes "CA")) (create_code (bytes_of 2) (owner 2) empty).1).1
Calls-IsKept_example =
    Calls-IsKept empty
      (apply_code 40 (apply 4 (codes "CA")) (create_code (bytes_of 2) (owner 2) empty).1).1
      empty-IsConsistent
      (applies (creates none_yet (bytes_of 2) (owner 2)) 40 (apply 4 (codes "CA")))

abbrev coded : Referrals
coded = record empty { codes = code_row 99 (owner 2) (codes "CA") ∷ [] }

coded-IsConsistent : IsConsistent coded
coded-IsConsistent = record {
  ids = tt;
  below = tt;
  one_each = tt;
  apart = tt;
  direct = tt;
  owned = tt;
  one_way = tt;
}

apply_code-Outcome_example :
    Outcome (apply 4 (codes "CA")) coded (apply_code 40 (apply 4 (codes "CA")) coded)
apply_code-Outcome_example = apply_code-Outcome 40 (apply 4 (codes "CA")) coded coded-IsConsistent

create_code-Drawn_example :
    Drawn (bytes_of 2) (owner 5) coded (create_code (bytes_of 2) (owner 5) coded)
create_code-Drawn_example = create_code-Drawn (bytes_of 2) (owner 5) coded

generate_code-IsLetter_example :
    (length (generate_code (3 ∷ 255 ∷ [])) ≡ 2) × All IsLetter (generate_code (3 ∷ 255 ∷ []))
generate_code-IsLetter_example = generate_code-IsLetter (3 ∷ 255 ∷ [])

get_effective_referral_chain-levels_example :
    let chain = get_effective_referral_chain 7 2 3 referred in
    HasDistinctUsers chain × All (λ e. e.ancestor_id ≢ 2) chain × All (IsWithin 3) chain
get_effective_referral_chain-levels_example = get_effective_referral_chain-levels 7 2 3 referred
