-- ===== src/Wallet/Run.antt =====
-- Runs of the wallet services (packages/domain/wallet/src): sequences of calls, in which a payout
-- reservation is not sent or released after it was released.
use alice_uprm.Prelude.{ℕ, ◌+◌, ◌≡◌, inl, inr, true, some, [], arith, Option-cases}
use alice_uprm.Prelude.Int.{int_laws}
use alice_uprm.Prelude.Text.{codes}
use alice_uprm.Prelude.Rows.{find, sum_by}
use alice_uprm.Prelude.Keyed.{by_id, HasIdsBelow-mono}
use alice_uprm.Wallet.Types.{
  WalletPayoutReservation, Wallet, CreateWalletGrantInput, ReserveWalletRedemptionInput,
  ReserveWalletPayoutInput,
}
use alice_uprm.Wallet.Grants.{ensure_wallet_account, is_wallet_of, create_grant, record_delta}
use alice_uprm.Wallet.Redemption.{reserve_redemption, mark_posted, release_redemption}
use alice_uprm.Wallet.Payout.{reserve_payout, mark_reservation_sent, release_reservation}
use alice_uprm.Wallet.Spending.{grant_id}
use alice_uprm.Wallet.Backing.{AreBacked-grants}
use alice_uprm.Wallet.Conservation.{
  reservation_id, is_active, IsConserved, create_grant-IsConserved, record_delta-IsConserved,
}
use alice_uprm.Wallet.Holding.{reserve_redemption-IsConserved, reserve_payout-IsConserved}
use alice_uprm.Wallet.Releasing.{mark_posted-IsConserved, release_redemption-IsConserved}
use alice_uprm.Wallet.Sending.{release_reservation-IsConserved, mark_reservation_sent-IsConserved}

abbrev pub no_wallets : Wallet
no_wallets = record {
  accounts = [];
  grants = [];
  redemptions = [];
  redemption_allocations = [];
  reservations = [];
  payout_allocations = [];
  next_id = 0;
}

abbrev IsHeld : ℕ → Wallet → Type 0
IsHeld id w =
    (r : WalletPayoutReservation) × (by_id reservation_id id w.reservations ≡ some r)
    × (is_active r.status ≡ true)

-- The calls of the services, each on what the last one left, also where it threw.
pub data Run : Wallet → Type 0 where
  start : Run no_wallets
  ensured : {w : Wallet} → Run w → (user : ℕ) → Run (ensure_wallet_account user w).1
  granted :
      {w : Wallet} → Run w → (now : ℕ) (i : CreateWalletGrantInput) → Run (create_grant now i w).1
  recorded :
      {w : Wallet} → Run w → (now : ℕ) (i : CreateWalletGrantInput) → Run (record_delta now i w).1
  redeemed :
      {w : Wallet} → Run w → (i : ReserveWalletRedemptionInput) → Run (reserve_redemption i w).1
  marked : {w : Wallet} → Run w → (now id : ℕ) → Run (mark_posted now id w).1
  given_up : {w : Wallet} → Run w → (id : ℕ) → Run (release_redemption id w).1
  held : {w : Wallet} → Run w → (i : ReserveWalletPayoutInput) → Run (reserve_payout i w).1
  paid : {w : Wallet} → Run w → (id : ℕ) → IsHeld id w → Run (mark_reservation_sent id w).1
  returned : {w : Wallet} → Run w → (id : ℕ) → IsHeld id w → Run (release_reservation id w).1

no_wallets-IsConserved : IsConserved no_wallets
unfolding sum_by
no_wallets-IsConserved = record {
  grants_distinct = tt;
  grants_below = tt;
  redemptions_backed = record { distinct = tt; below = tt; owners = tt; backed = tt };
  reservations_backed = record { distinct = tt; below = tt; owners = tt; backed = tt };
  conserves = λ b. omega int_laws;
}

ensure_wallet_account-IsConserved :
    (user : ℕ) (w : Wallet) → IsConserved w → IsConserved (ensure_wallet_account user w).1
unfolding ensure_wallet_account
ensure_wallet_account-IsConserved user w h =
    elim (Option-cases (find (is_wallet_of user (codes "credit")) w.accounts)) [
      | inr (a, found) ↦ rw (found, ensure_wallet_account) h
      | inl absent ↦
          rw (absent, ensure_wallet_account)
            (record {
              grants_distinct = h.grants_distinct;
              grants_below =
                  HasIdsBelow-mono grant_id w.next_id (w.next_id + 1) w.grants (omega arith)
                    h.grants_below;
              redemptions_backed =
                  AreBacked-grants _ _ _ _ w.grants w.grants w.redemption_allocations w.redemptions
                    w.next_id _ (λ i a k. k) (omega arith) h.redemptions_backed;
              reservations_backed =
                  AreBacked-grants _ _ _ _ w.grants w.grants w.payout_allocations w.reservations
                    w.next_id _ (λ i a k. k) (omega arith) h.reservations_backed;
              conserves = h.conserves;
            })
    ]

-- After every run of the services from empty tables, in which no payout reservation is sent or
-- released once it has been released: what was issued to an account is what its grants have left and
-- what its redemptions and payout reservations that were not released hold, and the allocation rows
-- of each hold sum to its amount and are of grants of its account.
pub Run-IsConserved : {w : Wallet} → Run w → IsConserved w
Run-IsConserved start = no_wallets-IsConserved
Run-IsConserved (ensured {w} r user) = ensure_wallet_account-IsConserved user w (Run-IsConserved r)
Run-IsConserved (granted {w} r now i) = create_grant-IsConserved now i w (Run-IsConserved r)
Run-IsConserved (recorded {w} r now i) = record_delta-IsConserved now i w (Run-IsConserved r)
Run-IsConserved (redeemed {w} r i) = reserve_redemption-IsConserved w i (Run-IsConserved r)
Run-IsConserved (marked {w} r now id) = mark_posted-IsConserved now id w (Run-IsConserved r)
Run-IsConserved (given_up {w} r id) = release_redemption-IsConserved id w (Run-IsConserved r)
Run-IsConserved (held {w} r i) = reserve_payout-IsConserved w i (Run-IsConserved r)
Run-IsConserved (paid {w} r id (x, found, open_hold)) =
    mark_reservation_sent-IsConserved id w x (Run-IsConserved r) found open_hold
Run-IsConserved (returned {w} r id (x, found, open_hold)) =
    release_reservation-IsConserved id w x (Run-IsConserved r) found open_hold
