-- ===== src/Referrals/Attach.antt =====
-- A new edge with its rows (`createEdgeWithAncestry` and `applyCode` of
-- packages/domain/referrals/src/referral.service.ts).
use alice_uprm.Prelude.{
  ℕ, ◌+◌, ◌<◌, ◌≡◌, refl, ap, ◌∙◌, ◌≢◌, inl, inr, Bool, true, false, ◌&&◌, ◌||◌, List, [], ◌∷◌,
  ◌++◌, arith, ltb, ◌==◌, Bool-cases, All, All-append, All-imp, All-imp₂,
}
use alice_uprm.Prelude.Rows.{any, any-append, All-any, any-imp, any-imp_false}
use alice_uprm.Prelude.Keyed.{HasDistinctIds-append, HasIdsBelow-mono}
use alice_uprm.Referrals.Types.{ReferralEdge, ReferralAncestry, Referrals, ApplyCodeInput}
use alice_uprm.Referrals.Edges.{
  is_edge_of, is_descendant_row, edge_row, ancestry_row, inherited_rows, is_same_key, add_ancestry,
  ancestry_rows, is_above,
}
use alice_uprm.Referrals.Consistent.{
  edge_id, HasOneEdgeEach, is_direct, owns, is_mutual, IsConsistent,
}

or_true : (b : Bool) → (b || true) ≡ true
or_true true = refl
or_true false = refl

add_ancestry-any :
    (p : ReferralAncestry → Bool) (new rows : List ReferralAncestry)
    → any p rows ≡ true
    → any p (add_ancestry new rows) ≡ true
unfolding add_ancestry
add_ancestry-any p [] rows h = h
add_ancestry-any p (a ∷ more) rows h = elim (Bool-cases (any (is_same_key a) rows)) [
  | inl there ↦ rw there (add_ancestry-any p more rows h)
  | inr absent ↦
      rw absent (add_ancestry-any p more (rows ++ a ∷ []) (any-append p rows (a ∷ []) ∙ rw h refl))
]

add_ancestry-All {κ} :
    (P : ReferralAncestry → Type κ) (new rows : List ReferralAncestry)
    → All P new
    → All P rows
    → All P (add_ancestry new rows)
unfolding add_ancestry
add_ancestry-All P [] rows n h = h
add_ancestry-All P (a ∷ more) rows n h = elim (Bool-cases (any (is_same_key a) rows)) [
  | inl there ↦ rw there (add_ancestry-All P more rows n.1 h)
  | inr absent ↦
      rw absent
        (add_ancestry-All P more (rows ++ a ∷ []) n.1 (All-append P rows (a ∷ []) h (n.0, tt)))
]

add_ancestry-new :
    (a : ReferralAncestry) (more rows : List ReferralAncestry)
    → any (is_same_key a) rows ≡ false
    → add_ancestry (a ∷ more) rows ≡ add_ancestry more (rows ++ a ∷ [])
unfolding add_ancestry
add_ancestry-new a more rows k = rw k refl

one_each-append :
    (e : ReferralEdge) (es : List ReferralEdge)
    → any (is_edge_of e.tenant_id e.referred_id) es ≡ false
    → HasOneEdgeEach es
    → HasOneEdgeEach (es ++ e ∷ [])
unfolding is_edge_of
one_each-append e [] h k = (refl, tt)
one_each-append e (x ∷ xs) h k =
    let other : is_edge_of x.tenant_id x.referred_id e ≡ false = ground arith in
    let rest : any (is_edge_of e.tenant_id e.referred_id) xs ≡ false = ground arith in
    (
      any-append (is_edge_of x.tenant_id x.referred_id) xs (e ∷ []) ∙ rw (k.0, other) refl,
      one_each-append e xs rest k.1,
    )

-- Rows under a user without an edge: there are none.
no_rows :
    (t u : ℕ) (edges : List ReferralEdge) (rows : List ReferralAncestry)
    → any (is_edge_of t u) edges ≡ false
    → All (λ a. any (owns a) edges ≡ true) rows
    → any (is_descendant_row t u) rows ≡ false
unfolding is_edge_of is_descendant_row
no_rows t u edges rows none_there owned =
    All-any (is_descendant_row t u) rows (All-imp _ _ rows absent owned)
  where
    absent : (a : ReferralAncestry) → any (owns a) edges ≡ true → is_descendant_row t u a ≡ false
    absent a k = elim (Bool-cases (is_descendant_row t u a)) [
      | inr no_match ↦ no_match
      | inl hit ↦
          let found : any (is_edge_of t u) edges ≡ true =
            any-imp (owns a) (is_edge_of t u) edges (λ e o. ground arith) k in
          absurd (ground (arith, found, none_there))
    ]

abbrev pub added_edge : ApplyCodeInput → ℕ → ℕ → Referrals → ReferralEdge
added_edge input referrer code_id s = edge_row s.next_id input referrer code_id

abbrev pub attached : ℕ → ApplyCodeInput → ℕ → ℕ → Referrals → Referrals
attached now input referrer code_id s = record s {
  edges = s.edges ++ added_edge input referrer code_id s ∷ [];
  next_id = s.next_id + 1;
  ancestry = add_ancestry (ancestry_rows now input referrer s.ancestry) s.ancestry;
}

module _ (now : ℕ) (input : ApplyCodeInput) (referrer code_id : ℕ) (s : Referrals)
    (h : IsConsistent s) (apart : referrer ≢ input.referred_id)
    (above : is_above input referrer s.ancestry ≡ false)
    (free : any (is_edge_of input.tenant_id input.referred_id) s.edges ≡ false) where
  abbrev new_edge : ReferralEdge
  new_edge = added_edge input referrer code_id s

  abbrev own_row : ReferralAncestry
  own_row = ancestry_row now input input.referred_id 0

  abbrev parent_row : ReferralAncestry
  parent_row = ancestry_row now input referrer 1

  same_key-own :
      (a : ReferralAncestry)
      → is_same_key own_row a ≡ true
      → is_descendant_row input.tenant_id input.referred_id a ≡ true
  unfolding is_same_key is_descendant_row ancestry_row
  same_key-own a k = ground arith

  same_key-parent :
      (a : ReferralAncestry)
      → is_same_key parent_row a ≡ true
      → is_descendant_row input.tenant_id input.referred_id a ≡ true
  unfolding is_same_key is_descendant_row ancestry_row
  same_key-parent a k = ground arith

  keys_apart : is_same_key parent_row own_row ≡ false
  unfolding is_same_key ancestry_row
  keys_apart = ground arith

  parent-is_direct : is_direct new_edge parent_row ≡ true
  unfolding edge_row ancestry_row is_descendant_row
  parent-is_direct = ground arith

  no_own : any (is_same_key own_row) s.ancestry ≡ false
  no_own =
      any-imp_false (is_same_key own_row) _ s.ancestry same_key-own
        (no_rows input.tenant_id input.referred_id s.edges s.ancestry free h.owned)

  no_parent : any (is_same_key parent_row) (s.ancestry ++ own_row ∷ []) ≡ false
  no_parent =
      let old =
        any-imp_false (is_same_key parent_row) _ s.ancestry same_key-parent
          (no_rows input.tenant_id input.referred_id s.edges s.ancestry free h.owned) in
      any-append (is_same_key parent_row) s.ancestry (own_row ∷ []) ∙ rw (old, keys_apart) refl

  has_direct :
      any
        (is_direct new_edge)
        (add_ancestry (ancestry_rows now input referrer s.ancestry) s.ancestry)
      ≡ true
  unfolding ancestry_rows
  has_direct =
      ap (any (is_direct new_edge)) (
        add_ancestry-new own_row (parent_row ∷ inherited_rows now input referrer s.ancestry)
          s.ancestry no_own
        ∙ add_ancestry-new parent_row (inherited_rows now input referrer s.ancestry)
            (s.ancestry ++ own_row ∷ []) no_parent)
      ∙ add_ancestry-any (is_direct new_edge) (inherited_rows now input referrer s.ancestry)
          ((s.ancestry ++ own_row ∷ []) ++ parent_row ∷ [])
          (any-append (is_direct new_edge) (s.ancestry ++ own_row ∷ []) (parent_row ∷ [])
            ∙ rw parent-is_direct (or_true (any (is_direct new_edge) (s.ancestry ++ own_row ∷ []))))

  new_owns :
      (a : ReferralAncestry)
      → owns a new_edge ≡ true
      → any (owns a) (s.edges ++ new_edge ∷ []) ≡ true
  new_owns a k = any-append (owns a) s.edges (new_edge ∷ []) ∙ rw k (or_true (any (owns a) s.edges))

  inherited_owned :
      (rows : List ReferralAncestry)
      → All
          (λ a. any (owns a) (s.edges ++ new_edge ∷ []) ≡ true)
          (inherited_rows now input referrer rows)
  unfolding inherited_rows ancestry_row edge_row is_edge_of
  inherited_owned [] = tt
  inherited_owned (a ∷ rows) =
      elim (Bool-cases (is_descendant_row input.tenant_id referrer a && ltb 0 a.depth)) [
        | inl taken ↦ rw taken (
          new_owns (ancestry_row now input a.ancestor_id (a.depth + 1)) (ground arith),
          inherited_owned rows,
        )
        | inr skipped ↦ rw skipped (inherited_owned rows)
      ]

  rows_owned :
      All
        (λ a. any (owns a) (s.edges ++ new_edge ∷ []) ≡ true)
        (ancestry_rows now input referrer s.ancestry)
  unfolding ancestry_rows ancestry_row edge_row is_edge_of
  rows_owned = (
    new_owns own_row (ground arith),
    (new_owns parent_row (ground arith), inherited_owned s.ancestry),
  )

  not_above :
      (e : ReferralEdge) (a : ReferralAncestry)
      → is_mutual e new_edge ≡ true
      → is_direct e a ≡ true
      → (is_descendant_row input.tenant_id referrer a && a.ancestor_id == input.referred_id) ≡ true
  unfolding edge_row is_descendant_row
  not_above e a m d = ground arith

  none_mutual :
      (e : ReferralEdge) → any (is_direct e) s.ancestry ≡ true → is_mutual e new_edge ≡ false
  unfolding is_above
  none_mutual e d = elim (Bool-cases (is_mutual e new_edge)) [
    | inr apart_edges ↦ apart_edges
    | inl both ↦
        let up = any-imp (is_direct e) _ s.ancestry (λ a. not_above e a both) d in
        absurd (ground (arith, up, above))
  ]

  mutual_comm : (e : ReferralEdge) → is_mutual e new_edge ≡ false → is_mutual new_edge e ≡ false
  mutual_comm e k = ground arith

  not_self_mutual : is_mutual new_edge new_edge ≡ false
  unfolding edge_row
  not_self_mutual = ground arith

  new_not_mutual : any (is_mutual new_edge) (s.edges ++ new_edge ∷ []) ≡ false
  new_not_mutual =
      let others =
        All-any (is_mutual new_edge) s.edges
          (All-imp _ _ s.edges (λ e d. mutual_comm e (none_mutual e d)) h.direct) in
      any-append (is_mutual new_edge) s.edges (new_edge ∷ []) ∙ rw (others, not_self_mutual) refl

  direct_later :
      (e : ReferralEdge)
      → any (is_direct e) s.ancestry ≡ true
      → any (is_direct e) (add_ancestry (ancestry_rows now input referrer s.ancestry) s.ancestry)
        ≡ true
  direct_later e k =
      add_ancestry-any (is_direct e) (ancestry_rows now input referrer s.ancestry) s.ancestry k

  owned_later :
      (a : ReferralAncestry)
      → any (owns a) s.edges ≡ true
      → any (owns a) (s.edges ++ new_edge ∷ []) ≡ true
  owned_later a k = any-append (owns a) s.edges (new_edge ∷ []) ∙ rw k refl

  one_way_later :
      (e : ReferralEdge)
      → any (is_direct e) s.ancestry ≡ true
      → any (is_mutual e) s.edges ≡ false
      → any (is_mutual e) (s.edges ++ new_edge ∷ []) ≡ false
  one_way_later e d k =
      any-append (is_mutual e) s.edges (new_edge ∷ []) ∙ rw (k, none_mutual e d) refl

  pub attached-IsConsistent : IsConsistent (attached now input referrer code_id s)
  unfolding edge_row
  attached-IsConsistent = record {
    ids = HasDistinctIds-append edge_id s.next_id new_edge s.edges refl h.below h.ids;
    below =
        All-append (λ e. e.id < s.next_id + 1) s.edges (new_edge ∷ [])
          (HasIdsBelow-mono edge_id s.next_id (s.next_id + 1) s.edges (omega arith) h.below)
          (omega arith, tt);
    one_each = one_each-append new_edge s.edges free h.one_each;
    apart = All-append _ s.edges (new_edge ∷ []) h.apart (apart, tt);
    direct =
        All-append _ s.edges (new_edge ∷ []) (All-imp _ _ s.edges direct_later h.direct)
          (has_direct, tt);
    owned =
        add_ancestry-All _ (ancestry_rows now input referrer s.ancestry) s.ancestry rows_owned
          (All-imp _ _ s.ancestry owned_later h.owned);
    one_way =
        All-append _ s.edges (new_edge ∷ [])
          (All-imp₂ _ _ _ s.edges one_way_later h.direct h.one_way) (new_not_mutual, tt);
  }
