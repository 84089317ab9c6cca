-- ===== src/Referrals/Consistent.antt =====
-- The tables of referrals that fit together, and the removal of an edge
-- (packages/domain/referrals/src/referral.service.ts).
use alice_uprm.Prelude.{
  ℕ, ◌≡◌, refl, sym, ap, ◌∙◌, ◌≢◌, inl, inr, Bool, true, false, not, ◌&&◌, ◌||◌, some, List, [],
  ◌∷◌, arith, ◌==◌, ==_iff, Bool-cases, All, All-imp,
}
use alice_uprm.Prelude.Rows.{
  find, filter, any, find-All, All-filter, any-filter, any-filter-false, any-All, filter-All,
}
use alice_uprm.Prelude.Keyed.{HasDistinctIds, HasIdsBelow, HasDistinctIds-filter}
use alice_uprm.Referrals.Types.{ReferralEdge, ReferralAncestry, Referrals, ApplyCodeInput}
use alice_uprm.Referrals.Edges.{is_edge_of, find_edge, is_descendant_row, remove_edge}

abbrev pub edge_id : ReferralEdge → ℕ
edge_id e = e.id

-- One edge for a referred user.
abbrev pub HasOneEdgeEach : List ReferralEdge → Type 0
HasOneEdgeEach [] = Unit
HasOneEdgeEach (e ∷ es) =
    (any (is_edge_of e.tenant_id e.referred_id) es ≡ false) × HasOneEdgeEach es

-- The row that puts the referrer one level above the referred user.
abbrev pub is_direct : ReferralEdge → ReferralAncestry → Bool
is_direct e a =
    is_descendant_row e.tenant_id e.referred_id a
    && (a.ancestor_id == e.referrer_id && a.depth == 1)

-- The edge that a row stands for: at the first level, its referrer is the ancestor.
abbrev pub owns : ReferralAncestry → ReferralEdge → Bool
owns a e =
    is_edge_of a.tenant_id a.descendant_id e
    && (not (a.depth == 1) || e.referrer_id == a.ancestor_id)

abbrev pub is_mutual : ReferralEdge → ReferralEdge → Bool
is_mutual e f =
    e.tenant_id == f.tenant_id && (e.referrer_id == f.referred_id && f.referrer_id == e.referred_id)

pub record IsConsistent (s : Referrals) : Type 0 where
  pub ids : HasDistinctIds edge_id s.edges
  pub below : HasIdsBelow edge_id s.next_id s.edges
  pub one_each : HasOneEdgeEach s.edges
  pub apart : All (λ e. e.referrer_id ≢ e.referred_id) s.edges
  pub direct : All (λ e. any (is_direct e) s.ancestry ≡ true) s.edges
  pub owned : All (λ a. any (owns a) s.edges ≡ true) s.ancestry
  pub one_way : All (λ e. any (is_mutual e) s.edges ≡ false) s.edges

-- Taking the edge out by its id takes out the edge of the referred user.
pub filter-edge :
    (t u : ℕ) (e : ReferralEdge) (es : List ReferralEdge)
    → HasDistinctIds edge_id es
    → HasOneEdgeEach es
    → find (is_edge_of t u) es ≡ some e
    → filter (λ x. not (x.id == e.id)) es ≡ filter (λ x. not (is_edge_of t u x)) es
unfolding is_edge_of
filter-edge t u e [] d k h = refl
filter-edge t u e (x ∷ xs) d k h = elim (Bool-cases (is_edge_of t u x)) [
  | inl here ↦
      let hit : some x ≡ some e = rw here at h in
      let row : x ≡ e = cc in
      let same_id : (x.id == e.id) ≡ true = rw row ((==_iff e.id e.id).1 refl) in
      let tenant : x.tenant_id ≡ t = ground arith in
      let user : x.referred_id ≡ u = ground arith in
      let others = any-All (is_edge_of t u) xs (rw (tenant, user) at k.0) in
      let by_key : filter (λ y. not (is_edge_of t u y)) xs ≡ xs =
        filter-All _ xs (All-imp _ _ xs (λ y m. ap not m) others) in
      let by_ids : filter (λ y. not (y.id == e.id)) xs ≡ xs = filter-All _ xs (
        All-imp _ _ xs (λ y m. let n : (y.id == e.id) ≡ false = ground (arith, row) in ap not n)
          d.0) in
      rw (here, same_id) (by_ids ∙ sym by_key)
  | inr there ↦
      let rest : find (is_edge_of t u) xs ≡ some e = rw there at h in
      let apart : (x.id == e.id) ≡ false =
        let ne = find-All (λ y. y.id ≢ x.id) (is_edge_of t u) xs e d.0 rest in ground arith in
      rw (there, apart) (ap (◌∷◌ x) (filter-edge t u e xs d.1 k.1 rest))
]

module _ (t u : ℕ) where
  one_each-filter :
      (es : List ReferralEdge)
      → HasOneEdgeEach es
      → HasOneEdgeEach (filter (λ x. not (is_edge_of t u x)) es)
  one_each-filter [] h = tt
  one_each-filter (x ∷ xs) h = elim (Bool-cases (is_edge_of t u x)) [
    | inl dropped ↦ rw dropped (one_each-filter xs h.1)
    | inr kept ↦
        rw kept
          (any-filter-false (is_edge_of x.tenant_id x.referred_id) _ xs h.0, one_each-filter xs h.1)
  ]

  -- With the edge of a user, and the rows under that user, the other edges and rows still fit.
  other_edge :
      (e : ReferralEdge) (a : ReferralAncestry)
      → not (is_edge_of t u e) ≡ true
      → is_direct e a ≡ true
      → not (is_descendant_row t u a) ≡ true
  unfolding is_edge_of is_descendant_row
  other_edge e a h k = ground arith

  other_row :
      (a : ReferralAncestry) (e : ReferralEdge)
      → not (is_descendant_row t u a) ≡ true
      → owns a e ≡ true
      → not (is_edge_of t u e) ≡ true
  unfolding is_edge_of is_descendant_row
  other_row a e h k = ground arith

pub remove_edge-IsConsistent :
    (input : ApplyCodeInput) (e : ReferralEdge) (s : Referrals)
    → find_edge input.tenant_id input.referred_id s ≡ some e
    → IsConsistent s
    → IsConsistent (remove_edge input e.id s)
      × (any (is_edge_of input.tenant_id input.referred_id) (remove_edge input e.id s).edges
          ≡ false)
unfolding remove_edge find_edge
remove_edge-IsConsistent input e s found h =
    let t = input.tenant_id in
    let u = input.referred_id in
    rw (filter-edge t u e s.edges h.ids h.one_each found, remove_edge)
      (
        record {
          ids = HasDistinctIds-filter edge_id _ s.edges h.ids;
          below = All-filter _ _ s.edges (All-imp _ _ s.edges (λ x k _. k) h.below);
          one_each = one_each-filter t u s.edges h.one_each;
          apart = All-filter _ _ s.edges (All-imp _ _ s.edges (λ x k _. k) h.apart);
          direct = All-filter _ _ s.edges (
              All-imp _ _ s.edges
                (λ x k kept.
                  any-filter (is_direct x) _ s.ancestry (λ a. other_edge t u x a kept) ∙ k)
                h.direct);
          owned = All-filter _ _ s.ancestry (
              All-imp _ _ s.ancestry
                (λ a k kept. any-filter (owns a) _ s.edges (λ x. other_row t u a x kept) ∙ k)
                h.owned);
          one_way =
              All-filter _ _ s.edges (
                All-imp _ _ s.edges (λ x k _. any-filter-false (is_mutual x) _ s.edges k)
                  h.one_way);
        },
        none_left s.edges,
      )
  where
    none_left :
        (es : List ReferralEdge)
        → any
            (is_edge_of input.tenant_id input.referred_id)
            (filter (λ x. not (is_edge_of input.tenant_id input.referred_id x)) es)
          ≡ false
    none_left [] = refl
    none_left (x ∷ xs) = ground (arith, none_left xs)
