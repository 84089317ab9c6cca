-- ===== src/Referrals/Levels.antt =====
-- The users of an effective referral chain and their depths
-- (packages/domain/referrals/src/referral.service.ts).
use alice_uprm.Prelude.{
  ℕ, zero, suc, ◌+◌, ◌-◌, ◌≤◌, ◌<◌, ◌≡◌, refl, ◌≢◌, inl, inr, true, false, none, some, List, [],
  ◌∷◌, ◌++◌, map, arith, Bool-cases, Option-cases, All, All-append, All-imp,
}
use alice_uprm.Prelude.Rows.{filter, member, All-filter}
use alice_uprm.Referrals.Types.{ReferralAncestry, SourcedUser, Referrals}
use alice_uprm.Referrals.Chain.{
  ChainEntry, is_nearer, is_in_reach, edge_entry, explicit_entries, source_of, source_entry,
  source_entries, last_of, entry_user, get_effective_referral_chain,
}
use alice_uprm.Prelude.Sorting.{sort_by, All-sort_by}

-- No user twice.
abbrev pub HasDistinctUsers : List ChainEntry → Type 0
HasDistinctUsers [] = Unit
HasDistinctUsers (e ∷ es) = All (λ f. f.ancestor_id ≢ e.ancestor_id) es × HasDistinctUsers es

abbrev pub IsWithin : ℕ → ChainEntry → Type 0
IsWithin max_depth e = (1 ≤ e.depth) × (e.depth ≤ max_depth)

abbrev IsNew : List ℕ → ChainEntry → Type 0
IsNew seen e = member e.ancestor_id seen ≡ false

-- A user that is not among `u` and the users seen.
IsNew-cons :
    (u : ℕ) (seen : List ℕ) (e : ChainEntry)
    → IsNew (u ∷ seen) e
    → IsNew seen e × (e.ancestor_id ≢ u)
IsNew-cons u seen e h = ground arith

explicit-IsNew :
    (t d : ℕ) (seen : List ℕ) (rows : List ReferralAncestry)
    → All (IsNew seen) (explicit_entries t d seen rows)
      × HasDistinctUsers (explicit_entries t d seen rows)
unfolding explicit_entries
explicit-IsNew t d seen [] = (tt, tt)
explicit-IsNew t d seen (a ∷ rows) = elim (Bool-cases (member a.ancestor_id seen)) [
  | inl known ↦ rw known (explicit-IsNew t d seen rows)
  | inr fresh ↦
      let (new, distinct) = explicit-IsNew t d (a.ancestor_id ∷ seen) rows in
      rw fresh (
        (fresh, All-imp _ _ _ (λ e k. (IsNew-cons a.ancestor_id seen e k).0) new),
        (All-imp _ _ _ (λ e k. (IsNew-cons a.ancestor_id seen e k).1) new, distinct),
      )
]

explicit-All :
    (P : ChainEntry → Type 0) (t d : ℕ) (seen : List ℕ) (rows : List ReferralAncestry)
    → All (λ a. P (edge_entry t d a)) rows
    → All P (explicit_entries t d seen rows)
unfolding explicit_entries
explicit-All P t d seen [] h = tt
explicit-All P t d seen (a ∷ rows) h = elim (Bool-cases (member a.ancestor_id seen)) [
  | inl known ↦ rw known (explicit-All P t d seen rows h.1)
  | inr fresh ↦ rw fresh (h.0, explicit-All P t d (a.ancestor_id ∷ seen) rows h.1)
]

abbrev Walked : List ℕ → ℕ → ℕ → List ChainEntry → Type 0
Walked seen depth left es =
    All (IsNew seen) es
    × HasDistinctUsers es
    × All (λ e. (depth ≤ e.depth) × (e.depth < depth + left)) es

module _ (t d : ℕ) (users : List SourcedUser) where
  source-end :
      (left : ℕ) (seen : List ℕ) (cursor depth : ℕ)
      → source_of cursor users ≡ none
      → source_entries t d (suc left) users seen cursor depth ≡ []
  unfolding source_entries
  source-end left seen cursor depth absent = rw (absent, source_entries) refl

  source-known :
      (left : ℕ) (seen : List ℕ) (cursor depth : ℕ) (u : SourcedUser)
      → source_of cursor users ≡ some u
      → member u.id seen ≡ true
      → source_entries t d (suc left) users seen cursor depth ≡ []
  unfolding source_entries
  source-known left seen cursor depth u found known = rw (found, known, source_entries) refl

  source-step :
      (left : ℕ) (seen : List ℕ) (cursor depth : ℕ) (u : SourcedUser)
      → source_of cursor users ≡ some u
      → member u.id seen ≡ false
      → source_entries t d (suc left) users seen cursor depth
        ≡ source_entry t d depth u ∷ source_entries t d left users (u.id ∷ seen) u.id (depth + 1)
  unfolding source_entries
  source-step left seen cursor depth u found fresh = rw (found, fresh, source_entries) refl

  source-Walked :
      (left : ℕ) (seen : List ℕ) (cursor depth : ℕ)
      → Walked seen depth left (source_entries t d left users seen cursor depth)
  unfolding source_entries
  source-Walked zero seen cursor depth = (tt, tt, tt)
  source-Walked (suc left) seen cursor depth = elim (Option-cases (source_of cursor users)) [
    | inl absent ↦ rw (source-end left seen cursor depth absent) (tt, tt, tt)
    | inr (u, found) ↦ elim (Bool-cases (member u.id seen)) [
      | inl known ↦ rw (source-known left seen cursor depth u found known) (tt, tt, tt)
      | inr fresh ↦
          let (new, distinct, within) = source-Walked left (u.id ∷ seen) u.id (depth + 1) in
          rw (source-step left seen cursor depth u found fresh) (
            (fresh, All-imp _ _ _ (λ e k. (IsNew-cons u.id seen e k).0) new),
            (All-imp _ _ _ (λ e k. (IsNew-cons u.id seen e k).1) new, distinct),
            (
              (omega arith, omega arith),
              All-imp _ _ _ (λ e k. (omega (arith, k), omega (arith, k))) within,
            ),
          )
    ]
  ]

last_of-within :
    (user depth max : ℕ) (es : List ChainEntry)
    → depth ≤ max
    → All (IsWithin max) es
    → (last_of user depth es).1 ≤ max
unfolding last_of
last_of-within user depth max [] h k = h
last_of-within user depth max (e ∷ es) h k = last_of-within e.ancestor_id e.depth max es k.0.1 k.1

-- Users that are not among those of `xs` come after `xs`.
distinct-append :
    (d : ℕ) (xs ys : List ChainEntry)
    → HasDistinctUsers xs
    → HasDistinctUsers ys
    → All (IsNew (map entry_user xs ++ d ∷ [])) ys
    → HasDistinctUsers (xs ++ ys) × All (IsNew (d ∷ [])) ys
distinct-append d [] ys hx hy new = (hy, new)
distinct-append d (x ∷ xs) ys hx hy new =
    let (rest, apart) = distinct-append d xs ys hx.1 hy (
      All-imp _ _ ys (λ e k. (IsNew-cons x.ancestor_id (map entry_user xs ++ d ∷ []) e k).0) new) in
    (
      (
        All-append _ xs ys hx.0 (
            All-imp _ _ ys (λ e k. (IsNew-cons x.ancestor_id (map entry_user xs ++ d ∷ []) e k).1)
              new),
        rest,
      ),
      apart,
    )

rows-IsWithin :
    (t d max : ℕ) (rows : List ReferralAncestry)
    → All
        (λ a. IsWithin max (edge_entry t d a))
        (sort_by is_nearer (filter (is_in_reach t d max) rows))
rows-IsWithin t d max rows =
    All-sort_by is_nearer _ (filter (is_in_reach t d max) rows)
      (All-filter _ (is_in_reach t d max) rows (each rows))
  where
    each :
        (xs : List ReferralAncestry)
        → All (λ a. is_in_reach t d max a ≡ true → IsWithin max (edge_entry t d a)) xs
    each [] = tt
    each (x ∷ xs) = ((λ k. (ground (arith, k), ground (arith, k))), each xs)

-- The users of an effective referral chain are all different, and different from the user it starts at,
-- and their depths lie between 1 and the greatest depth asked for.
pub get_effective_referral_chain-levels :
    (tenant_id user_id max_depth : ℕ) (s : Referrals)
    → let chain = get_effective_referral_chain tenant_id user_id max_depth s in
      HasDistinctUsers chain
      × All (λ e. e.ancestor_id ≢ user_id) chain
      × All (IsWithin max_depth) chain
unfolding get_effective_referral_chain
get_effective_referral_chain-levels t d max s =
    let rows = sort_by is_nearer (filter (is_in_reach t d max) s.ancestry) in
    let es = explicit_entries t d (d ∷ []) rows in
    let last = last_of d 0 es in
    let more =
      source_entries t d (max - last.1) s.users (map entry_user es ++ d ∷ []) last.0 (last.1 + 1) in
    let (new, distinct) = explicit-IsNew t d (d ∷ []) rows in
    let within = explicit-All (IsWithin max) t d (d ∷ []) rows (rows-IsWithin t d max s.ancestry) in
    let (more_new, more_distinct, more_within) =
      source-Walked t d s.users (max - last.1) (map entry_user es ++ d ∷ []) last.0 (last.1 + 1) in
    let (all_distinct, more_apart) = distinct-append d es more distinct more_distinct more_new in
    let bound = last_of-within d 0 max es (omega arith) within in
    (
      all_distinct,
      All-append _ es more (All-imp _ _ es (λ e k. (IsNew-cons d [] e k).1) new)
          (All-imp _ _ more (λ e k. (IsNew-cons d [] e k).1) more_apart),
      All-append (IsWithin max) es more within (
          All-imp _ (IsWithin max) more (λ e k. (omega (arith, k), omega (arith, k, bound)))
            more_within),
    )
