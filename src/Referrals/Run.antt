-- ===== src/Referrals/Run.antt =====
-- Any sequence of the calls of `ReferralService` (packages/domain/referrals/src/referral.service.ts).
use alice_uprm.Prelude.{
  ℕ, ◌+◌, ◌≡◌, refl, ◌∙◌, inl, inr, Bool, true, false, some, List, [], ◌∷◌, arith, if◌then◌else◌,
  is_some, Bool-cases, Option-cases, All-imp,
}
use alice_uprm.Prelude.Rows.{
  update_where, any, any-update_where, All-update_where, find-update_where,
}
use alice_uprm.Prelude.Keyed.{HasIdsBelow-mono, update_where-ids, update_where-distinct}
use alice_uprm.Referrals.Types.{ReferralEdge, Referrals, CreateCodeInput, ApplyCodeInput}
use alice_uprm.Referrals.Codes.{create_code}
use alice_uprm.Referrals.Edges.{is_edge_of, find_edge, apply_code, lock_edge}
use alice_uprm.Referrals.Consistent.{edge_id, HasOneEdgeEach, owns, is_mutual, IsConsistent}
use alice_uprm.Referrals.Applied.{KeepsLocked, KeepsLocked-same}
use alice_uprm.Referrals.Outcome.{apply_code-Outcome}
use alice_uprm.Referrals.Drawn.{create_code-Drawn}

-- The calls that lead from one state of the tables to another.
pub data Calls : Referrals → Referrals → Type 0 where
  none_yet : {s : Referrals} → Calls s s
  creates :
      {s s' : Referrals}
      → Calls s s'
      → (random : ℕ → List ℕ) (input : CreateCodeInput) → Calls s (create_code random input s').1
  applies :
      {s s' : Referrals}
      → Calls s s'
      → (now : ℕ) (input : ApplyCodeInput) → Calls s (apply_code now input s').1
  locks :
      {s s' : Referrals}
      → Calls s s'
      → (now tenant_id referred_id : ℕ) → Calls s (lock_edge now tenant_id referred_id s').1

-- A call keeps the tables consistent and the locked edges.
abbrev pub IsKept : Referrals → Referrals → Type 0
IsKept s s' = IsConsistent s' × KeepsLocked s s'

same_tables :
    (s s' : Referrals)
    → IsConsistent s
    → s'.edges ≡ s.edges
    → s'.ancestry ≡ s.ancestry
    → s'.next_id ≡ s.next_id + 1
    → IsKept s s'
unfolding find_edge
same_tables s s' h edges ancestry next = (
  record {
    ids = rw edges h.ids;
    below =
        rw (edges, next)
          (HasIdsBelow-mono edge_id s.next_id (s.next_id + 1) s.edges (omega arith) h.below);
    one_each = rw edges h.one_each;
    apart = rw edges h.apart;
    direct = rw (edges, ancestry) h.direct;
    owned = rw (edges, ancestry) h.owned;
    one_way = rw edges h.one_way;
  },
  λ t u e found locked. (e, rw edges found, locked, refl, refl),
)

create_code-IsKept :
    (random : ℕ → List ℕ) (input : CreateCodeInput) (s : Referrals)
    → IsConsistent s
    → IsKept s (create_code random input s).1
create_code-IsKept random input s h = elim (create_code-Drawn random input s) [
  | inl (i, c, result, made) ↦
      same_tables s (create_code random input s).1 h made.edges made.ancestry made.next
  | inr (taken, run) ↦ rw run (h, KeepsLocked-same s)
]

apply_code-IsKept :
    (now : ℕ) (input : ApplyCodeInput) (s : Referrals)
    → IsConsistent s
    → IsKept s (apply_code now input s).1
apply_code-IsKept now input s h = elim (apply_code-Outcome now input s h) [
  | inl (e, run) ↦ rw run (h, KeepsLocked-same s)
  | inr (code, e, result, made) ↦ (made.consistent, made.locked)
]

abbrev as_locked : ℕ → ReferralEdge → ReferralEdge
as_locked now e = record e { locked_at = some now }

module _ (now : ℕ) (p : ReferralEdge → Bool) where
  same_keys :
      (x : ReferralEdge) (xs : List ReferralEdge)
      → any (is_edge_of x.tenant_id x.referred_id) (update_where p (as_locked now) xs)
        ≡ any (is_edge_of x.tenant_id x.referred_id) xs
  unfolding is_edge_of
  same_keys x xs =
      any-update_where (is_edge_of x.tenant_id x.referred_id) p (as_locked now) xs (λ y. refl)

  one_each-locked :
      (es : List ReferralEdge)
      → HasOneEdgeEach es
      → HasOneEdgeEach (update_where p (as_locked now) es)
  one_each-locked [] h = tt
  one_each-locked (e ∷ es) h = (
    elim (Bool-cases (p e)) [
      | inl hit ↦ rw hit (same_keys e es ∙ h.0)
      | inr miss ↦ rw miss (same_keys e es ∙ h.0)
    ],
    one_each-locked es h.1,
  )

  -- Locking changes no column that the other facts read.
  locked-IsConsistent :
      (s : Referrals)
      → IsConsistent s
      → IsConsistent (record s { edges = update_where p (as_locked now) s.edges })
  unfolding is_edge_of
  locked-IsConsistent s h = record {
    ids = update_where-distinct edge_id (as_locked now) (λ e. refl) p s.edges h.ids;
    below = update_where-ids edge_id (as_locked now) (λ e. refl) s.next_id p s.edges h.below;
    one_each = one_each-locked s.edges h.one_each;
    apart = All-update_where _ p (as_locked now) s.edges (λ e k. k) h.apart;
    direct = All-update_where _ p (as_locked now) s.edges (λ e k. k) h.direct;
    owned =
        All-imp _ _ s.ancestry
          (λ a k. any-update_where (owns a) p (as_locked now) s.edges (λ y. refl) ∙ k) h.owned;
    one_way =
        All-update_where (λ e. any (is_mutual e) (update_where p (as_locked now) s.edges) ≡ false) p
          (as_locked now) s.edges (λ e k. k)
          (All-imp _ _ s.edges
            (λ e k. any-update_where (is_mutual e) p (as_locked now) s.edges (λ y. refl) ∙ k)
            h.one_way);
  }

  still_locked :
      (e : ReferralEdge)
      → is_some e.locked_at ≡ true
      → let f = if p e then as_locked now e else e in
        (is_some f.locked_at ≡ true) × (f.id ≡ e.id) × (f.referrer_id ≡ e.referrer_id)
  still_locked e locked = elim (Bool-cases (p e)) [
    | inl hit ↦ rw hit (refl, refl, refl)
    | inr miss ↦ rw miss (locked, refl, refl)
  ]

  locked-KeepsLocked :
      (s : Referrals) → KeepsLocked s (record s { edges = update_where p (as_locked now) s.edges })
  unfolding find_edge is_edge_of
  locked-KeepsLocked s t u e found locked =
      let (still, id, referrer) = still_locked e locked in
      (
        _,
        find-update_where (is_edge_of t u) p (as_locked now) s.edges e (λ y. refl) found,
        still,
        id,
        referrer,
      )

lock_edge-IsKept : (now t u : ℕ) (s : Referrals) → IsConsistent s → IsKept s (lock_edge now t u s).1
unfolding lock_edge
lock_edge-IsKept now t u s h = elim (Option-cases (find_edge t u s)) [
  | inl absent ↦ rw (absent, lock_edge) (h, KeepsLocked-same s)
  | inr (e, found) ↦
      rw (found, lock_edge)
        (locked-IsConsistent now (is_edge_of t u) s h, locked-KeepsLocked now (is_edge_of t u) s)
]

KeepsLocked-trans : (a b c : Referrals) → KeepsLocked a b → KeepsLocked b c → KeepsLocked a c
KeepsLocked-trans a b c h k t u e found locked =
    let (f, there, still, id, referrer) = h t u e found locked in
    let (g, there_too, still_too, id_too, referrer_too) = k t u f there still in
    (g, there_too, still_too, id_too ∙ id, referrer_too ∙ referrer)

step : (a b c : Referrals) → IsKept a b → (IsConsistent b → IsKept b c) → IsKept a c
step a b c h k = let (consistent, keeps) = k h.0 in (consistent, KeepsLocked-trans a b c h.1 keeps)

-- Any calls of the service on consistent tables leave them consistent, that is, with one edge for each
-- referred user, no edge from a user to itself, no two users that refer each other directly, a row of
-- depth 1 for each edge and no others at that depth; and every locked edge keeps its referrer and stays
-- locked. Cycles of three users or more are not excluded.
pub Calls-IsKept : (s s' : Referrals) → IsConsistent s → Calls s s' → IsKept s s'
Calls-IsKept s s' h none_yet = (h, KeepsLocked-same s)
Calls-IsKept s s' h (creates {s' = m} calls random input) =
    step s m s' (Calls-IsKept s m h calls) (create_code-IsKept random input m)
Calls-IsKept s s' h (applies {s' = m} calls now input) =
    step s m s' (Calls-IsKept s m h calls) (apply_code-IsKept now input m)
Calls-IsKept s s' h (locks {s' = m} calls now t u) =
    step s m s' (Calls-IsKept s m h calls) (lock_edge-IsKept now t u m)
