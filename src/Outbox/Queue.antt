-- ===== src/Outbox/Queue.antt =====
-- The messages that a batch of the relay claims, said without the code's own query
-- (packages/domain/outbox/src/relay.service.ts).
use alice_uprm.Prelude.{
  ℕ, ◌≤◌, ◌≡◌, refl, ap, ◌∙◌, inl, inr, Bool, true, false, not, ◌&&◌, Option, none, some, List, [],
  ◌∷◌, arith, ltb, leb, if◌then◌else◌, Bool-cases, All, All-imp, take,
}
use mathlib.Core.List.{Perm}
use mathlib.Core.List.Perm
use alice_uprm.Prelude.Rows.{filter}
use alice_uprm.Prelude.Sorting.{insert_by, sort_by, All-insert_by}
use alice_uprm.Outbox.Relay.{
  MessageStatus, pending, OutboxMessage, Relay, RelayOptions, is_claimable, is_older, claimable,
  or_default, batch_of,
}

abbrev pub limit : Option ℕ → ℕ → ℕ
limit none n = n
limit (some m) n = m

abbrev pub waits : MessageStatus → Bool
waits pending = true
waits _ = false

-- The messages that are pending, have attempts left, and are not locked by another worker.
abbrev pub eligible : ℕ → (OutboxMessage → Bool) → List OutboxMessage → List OutboxMessage
eligible max_attempts locked [] = []
eligible max_attempts locked (m ∷ ms) =
    let rest = eligible max_attempts locked ms in
    if waits m.status && ltb m.attempts max_attempts && not (locked m) then m ∷ rest else rest

abbrev pub IsOldestFirst : List OutboxMessage → Type 0
IsOldestFirst [] = Unit
IsOldestFirst (m ∷ ms) = All (λ n. m.created_at ≤ n.created_at) ms × IsOldestFirst ms

eligible-filter :
    (max_attempts : ℕ) (locked : OutboxMessage → Bool) (ms : List OutboxMessage)
    → filter (is_claimable max_attempts locked) ms ≡ eligible max_attempts locked ms
unfolding is_claimable
eligible-filter max_attempts locked [] = refl
eligible-filter max_attempts locked (m ∷ ms) =
    ground (arith, eligible-filter max_attempts locked ms)

insert_by-perm :
    (m : OutboxMessage) (ms : List OutboxMessage) → Perm (insert_by is_older m ms) (m ∷ ms)
unfolding insert_by
insert_by-perm m [] = Perm.refl _
insert_by-perm m (n ∷ ms) = elim (Bool-cases (leb m.created_at n.created_at)) [
  | inl before ↦ rw before (Perm.refl _)
  | inr later ↦ rw later (Perm.trans (Perm.cons n (insert_by-perm m ms)) (Perm.swap m n ms))
]

sort_by-perm : (ms : List OutboxMessage) → Perm (sort_by is_older ms) ms
unfolding sort_by
sort_by-perm [] = Perm.refl _
sort_by-perm (m ∷ ms) =
    Perm.trans (insert_by-perm m (sort_by is_older ms)) (Perm.cons m (sort_by-perm ms))

insert_by-IsOldestFirst :
    (m : OutboxMessage) (ms : List OutboxMessage)
    → IsOldestFirst ms
    → IsOldestFirst (insert_by is_older m ms)
unfolding insert_by
insert_by-IsOldestFirst m [] h = (tt, tt)
insert_by-IsOldestFirst m (n ∷ ms) h = elim (Bool-cases (leb m.created_at n.created_at)) [
  | inl before ↦
      let le : m.created_at ≤ n.created_at = ground arith in
      rw before (
        (
          le,
          All-imp (λ k. n.created_at ≤ k.created_at) (λ k. m.created_at ≤ k.created_at) ms
              (λ k a. omega arith) h.0,
        ),
        h,
      )
  | inr later ↦
      let le : n.created_at ≤ m.created_at = ground arith in
      rw later (
        All-insert_by is_older (λ k. n.created_at ≤ k.created_at) m ms le h.0,
        insert_by-IsOldestFirst m ms h.1,
      )
]

sort_by-IsOldestFirst : (ms : List OutboxMessage) → IsOldestFirst (sort_by is_older ms)
unfolding sort_by
sort_by-IsOldestFirst [] = tt
sort_by-IsOldestFirst (m ∷ ms) =
    insert_by-IsOldestFirst m (sort_by is_older ms) (sort_by-IsOldestFirst ms)

limit-or_default : (o : Option ℕ) (n : ℕ) → or_default o n ≡ limit o n
limit-or_default none n = refl
limit-or_default (some m) n = refl

-- A batch is the first part of the eligible messages, the oldest first.
abbrev pub IsQueue : (OutboxMessage → Bool) → RelayOptions → Relay → List OutboxMessage → Type 0
IsQueue locked opts s queue =
    Perm queue (eligible (limit opts.max_attempts 10) locked s.messages) × IsOldestFirst queue

pub batch_of-take :
    (locked : OutboxMessage → Bool) (opts : RelayOptions) (s : Relay)
    → (queue : List OutboxMessage) × IsQueue locked opts s queue
      × (batch_of locked opts s ≡ take (limit opts.batch_size 50) queue)
unfolding batch_of claimable
batch_of-take locked opts s =
    let max = or_default opts.max_attempts 10 in
    let kept = filter (is_claimable max locked) s.messages in
    let same : kept ≡ eligible (limit opts.max_attempts 10) locked s.messages =
      eligible-filter max locked s.messages
      ∙ ap (λ (n : ℕ). eligible n locked s.messages) (limit-or_default opts.max_attempts 10) in
    (
      sort_by is_older kept,
      (rw⁻¹ same (sort_by-perm kept), sort_by-IsOldestFirst kept),
      ap (λ (n : ℕ). take n (sort_by is_older kept)) (limit-or_default opts.batch_size 50),
    )
