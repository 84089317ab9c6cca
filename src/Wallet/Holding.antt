-- ===== src/Wallet/Holding.antt =====
-- Reserving, posting, sending and releasing keep the conservation law of the wallet
-- (packages/domain/wallet/src/wallet-redemption.service.ts, wallet-payout.service.ts).
use alice_uprm.Prelude.{
  ℕ, ◌+◌, ◌≡◌, refl, ◌∙◌, inl, inr, Bool, true, false, ◌&&◌, List, [], ◌∷◌, ◌++◌, arith, ◌==◌,
  if◌then◌else◌,
}
use alice_uprm.Prelude.Int.{ℤ, pos, ◌+ℤ◌, neg, int_laws, parts_of_eq}
use alice_uprm.Prelude.Exec.{Error, ok, err, pure, for_each, Result-cases, >>=-of_ok}
use alice_uprm.Prelude.Keyed.{HasDistinctIds, HasIdsBelow-mono}
use alice_uprm.Wallet.Types.{
  WalletGrant, Wallet, WalletAllocation, ReserveWalletRedemptionInput, ReserveWalletPayoutInput,
}
use alice_uprm.Wallet.Allocation.{allocate_fifo}
use alice_uprm.Wallet.Grants.{list_available_grants}
use alice_uprm.Wallet.Redemption.{
  redemption_row, take_redemption, reserve_redemption, create_redemption,
}
use alice_uprm.Wallet.Payout.{reservation_row, take_payout, reserve_payout, create_reservation}
use alice_uprm.Wallet.Fifo.{allocated}
use alice_uprm.Wallet.Coverage.{allocate_fifo-total}
use alice_uprm.Wallet.Spending.{grant_id, Moves, spend, spend-Moves, AreOf}
use alice_uprm.Wallet.Loops.{
  taken_redemption, taken_payout, take_redemption-all, take_payout-all, allocate_fifo-AreOf,
}
use alice_uprm.Wallet.Backing.{Keeps, AreBacked-grants, AreBacked-add, held_in-add}
use alice_uprm.Wallet.Conservation.{
  redemption_id, redemption_account, redemption_amount, redemption_active, reservation_id,
  reservation_account, reservation_amount, reservation_active, redeemed_in, paid_in, IsConserved,
}

if_neg : (b : Bool) (d : ℤ) → (if b then neg d else pos 0) ≡ neg (if b then d else pos 0)
if_neg true d = refl
if_neg false d = omega int_laws

-- The four sums after `d` was taken and held.
held_instead :
    (i r x p i' r' x' p' m k : ℤ)
    → i ≡ r +ℤ x +ℤ p
    → i' ≡ i
    → r' ≡ r +ℤ m
    → x' +ℤ p' ≡ x +ℤ p +ℤ k
    → m ≡ neg k
    → i' ≡ r' +ℤ x' +ℤ p'
held_instead i r x p i' r' x' p' m k h hi hr hx hm = omega (
  int_laws,
  parts_of_eq _ _ h,
  parts_of_eq _ _ hi,
  parts_of_eq _ _ hr,
  parts_of_eq _ _ hx,
  parts_of_eq _ _ hm,
)

module _ (w : Wallet) (out : List WalletAllocation) where
  -- The tables after `reserveRedemption`.
  abbrev pub redeemed : ReserveWalletRedemptionInput → Wallet
  redeemed input = taken_redemption w.next_id out (record w {
    redemptions = w.redemptions ++ redemption_row w.next_id input ∷ [];
    next_id = w.next_id + 1;
  })

  abbrev pub held_for : ReserveWalletPayoutInput → Wallet
  held_for input = taken_payout w.next_id out (record w {
    reservations = w.reservations ++ reservation_row w.next_id input out ∷ [];
    next_id = w.next_id + 1;
  })

  module _ (h : HasDistinctIds grant_id w.grants) where
    -- Once the allocation has succeeded, no later step throws.
    pub reserve_redemption-run :
        (input : ReserveWalletRedemptionInput)
        → allocate_fifo (list_available_grants input.wallet_account_id w) input.amount_credits
          ≡ ok out
        → reserve_redemption input w ≡ (ok (redemption_row w.next_id input, out), redeemed input)
    unfolding reserve_redemption create_redemption redemption_row
    reserve_redemption-run input e = rw e (
        >>=-of_ok (for_each out (take_redemption w.next_id))
          (λ _. pure (redemption_row w.next_id input, out)) _ tt (redeemed input)
          (take_redemption-all w.next_id input.wallet_account_id out _
            (allocate_fifo-AreOf input.wallet_account_id w input.amount_credits out h e)))

    pub reserve_payout-run :
        (input : ReserveWalletPayoutInput)
        → allocate_fifo (list_available_grants input.wallet_account_id w) input.amount_credits
          ≡ ok out
        → reserve_payout input w ≡ (ok (reservation_row w.next_id input out, out), held_for input)
    unfolding reserve_payout create_reservation reservation_row
    reserve_payout-run input e = rw e (
        >>=-of_ok (for_each out (take_payout w.next_id))
          (λ _. pure (reservation_row w.next_id input out, out)) _ tt (held_for input)
          (take_payout-all w.next_id input.wallet_account_id out _
            (allocate_fifo-AreOf input.wallet_account_id w input.amount_credits out h e)))

reserve_redemption-err :
    (w : Wallet) (input : ReserveWalletRedemptionInput) (e : Error)
    → allocate_fifo (list_available_grants input.wallet_account_id w) input.amount_credits ≡ err e
    → reserve_redemption input w ≡ (err e, w)
unfolding reserve_redemption
reserve_redemption-err w input e h = rw h

reserve_payout-err :
    (w : Wallet) (input : ReserveWalletPayoutInput) (e : Error)
    → allocate_fifo (list_available_grants input.wallet_account_id w) input.amount_credits ≡ err e
    → reserve_payout input w ≡ (err e, w)
unfolding reserve_payout
reserve_payout-err w input e h = rw h

Moves-Keeps : (a : ℕ) (d : ℤ) (gs gs' : List WalletGrant) → Moves a d gs gs' → Keeps gs gs'
Moves-Keeps a d gs gs' h i b k = h.accounts i ∙ k

-- What a hold of `d` on the account `a` takes from the account `b`, with the statuses settled.
active_now :
    (a b : ℕ) (d : ℤ) → (if a == b && true then d else pos 0) ≡ (if a == b then d else pos 0)
active_now a b d = ground arith

redeemed-IsConserved :
    (w : Wallet) (input : ReserveWalletRedemptionInput) (out : List WalletAllocation)
    → IsConserved w
    → AreOf input.wallet_account_id w.grants out
    → allocated out ≡ input.amount_credits
    → IsConserved (redeemed w out input)
unfolding redemption_row
redeemed-IsConserved w input out h mine total = record {
  grants_distinct = moves.ids h.grants_distinct;
  grants_below =
      moves.below (w.next_id + 1)
        (HasIdsBelow-mono grant_id w.next_id (w.next_id + 1) w.grants (omega arith) h.grants_below);
  redemptions_backed = AreBacked-grants _ _ _ _ w.grants _ _ _ _ _ keeps (omega arith) (
      AreBacked-add _ _ _ _ w.grants w.redemption_allocations w.redemptions w.next_id
        (redemption_row w.next_id input) out refl total mine h.redemptions_backed);
  reservations_backed =
      AreBacked-grants _ _ _ _ w.grants _ _ _ _ _ keeps (omega arith) h.reservations_backed;
  conserves = λ b.
      let added =
        held_in-add redemption_id redemption_account redemption_amount redemption_active b
          w.redemptions (redemption_row w.next_id input) in
      let d : ℤ = if input.wallet_account_id == b then input.amount_credits else pos 0 in
      let row : redeemed_in b (redemption_row w.next_id input) ≡ d =
        active_now input.wallet_account_id b input.amount_credits in
      held_instead _ _ _ _ _ _ _ _
        (if input.wallet_account_id == b then neg (allocated out) else pos 0) d (h.conserves b)
        (moves.issued b) (moves.remaining h.grants_distinct b)
        (omega (int_laws, parts_of_eq _ _ added, parts_of_eq _ _ row))
        (rw total (if_neg (input.wallet_account_id == b) input.amount_credits));
}
  where
    moves : Moves input.wallet_account_id (neg (allocated out)) w.grants (spend out w.grants)
    moves = spend-Moves input.wallet_account_id out w.grants mine

    keeps : Keeps w.grants (spend out w.grants)
    keeps = Moves-Keeps _ _ w.grants _ moves

held_for-IsConserved :
    (w : Wallet) (input : ReserveWalletPayoutInput) (out : List WalletAllocation)
    → IsConserved w
    → AreOf input.wallet_account_id w.grants out
    → allocated out ≡ input.amount_credits
    → IsConserved (held_for w out input)
unfolding reservation_row
held_for-IsConserved w input out h mine total = record {
  grants_distinct = moves.ids h.grants_distinct;
  grants_below =
      moves.below (w.next_id + 1)
        (HasIdsBelow-mono grant_id w.next_id (w.next_id + 1) w.grants (omega arith) h.grants_below);
  redemptions_backed =
      AreBacked-grants _ _ _ _ w.grants _ _ _ _ _ keeps (omega arith) h.redemptions_backed;
  reservations_backed = AreBacked-grants _ _ _ _ w.grants _ _ _ _ _ keeps (omega arith) (
      AreBacked-add _ _ _ _ w.grants w.payout_allocations w.reservations w.next_id
        (reservation_row w.next_id input out) out refl total mine h.reservations_backed);
  conserves = λ b.
      let added =
        held_in-add reservation_id reservation_account reservation_amount reservation_active b
          w.reservations (reservation_row w.next_id input out) in
      let d : ℤ = if input.wallet_account_id == b then input.amount_credits else pos 0 in
      let row : paid_in b (reservation_row w.next_id input out) ≡ d =
        active_now input.wallet_account_id b input.amount_credits in
      held_instead _ _ _ _ _ _ _ _
        (if input.wallet_account_id == b then neg (allocated out) else pos 0) d (h.conserves b)
        (moves.issued b) (moves.remaining h.grants_distinct b)
        (omega (int_laws, parts_of_eq _ _ added, parts_of_eq _ _ row))
        (rw total (if_neg (input.wallet_account_id == b) input.amount_credits));
}
  where
    moves : Moves input.wallet_account_id (neg (allocated out)) w.grants (spend out w.grants)
    moves = spend-Moves input.wallet_account_id out w.grants mine

    keeps : Keeps w.grants (spend out w.grants)
    keeps = Moves-Keeps _ _ w.grants _ moves

-- Reserving a redemption keeps the law, on every outcome.
pub reserve_redemption-IsConserved :
    (w : Wallet) (input : ReserveWalletRedemptionInput)
    → IsConserved w
    → IsConserved (reserve_redemption input w).1
reserve_redemption-IsConserved w input h =
    elim (Result-cases
      (allocate_fifo (list_available_grants input.wallet_account_id w) input.amount_credits)) [
        | inl (out, e) ↦ rw (reserve_redemption-run w out h.grants_distinct input e) (
            redeemed-IsConserved w input out h
              (allocate_fifo-AreOf input.wallet_account_id w input.amount_credits out
                h.grants_distinct e)
              (allocate_fifo-total _ _ out e).0)
        | inr (e, failed) ↦ rw (reserve_redemption-err w input e failed) h
      ]

-- Reserving a payout keeps the law, on every outcome.
pub reserve_payout-IsConserved :
    (w : Wallet) (input : ReserveWalletPayoutInput)
    → IsConserved w
    → IsConserved (reserve_payout input w).1
reserve_payout-IsConserved w input h =
    elim (Result-cases
      (allocate_fifo (list_available_grants input.wallet_account_id w) input.amount_credits)) [
        | inl (out, e) ↦ rw (reserve_payout-run w out h.grants_distinct input e) (
            held_for-IsConserved w input out h
              (allocate_fifo-AreOf input.wallet_account_id w input.amount_credits out
                h.grants_distinct e)
              (allocate_fifo-total _ _ out e).0)
        | inr (e, failed) ↦ rw (reserve_payout-err w input e failed) h
      ]
