-- ===== src/Wallet/Conservation.antt =====
-- The conservation law of the wallet (packages/domain/wallet/src), kept by every operation: what was
-- issued to an account is what its grants have left and what its redemptions and payout reservations
-- that were not released hold.
use alice_uprm.Prelude.{
  ℕ, ◌+◌, ◌<◌, ◌≡◌, refl, ap, ◌∙◌, inl, inr, Bool, true, false, List, [], ◌∷◌, ◌++◌, arith, ◌==◌,
  if◌then◌else◌, Bool-cases, Option-cases, All-append,
}
use alice_uprm.Prelude.Int.{ℤ, pos, ◌+ℤ◌, leb_ℤ, eqb_ℤ, int_laws, +ℤ-zero, parts_of_eq}
use alice_uprm.Prelude.Rows.{sum_by, sum_by-append, find-append_some}
use alice_uprm.Prelude.Keyed.{
  by_id, HasDistinctIds, HasIdsBelow, HasIdsBelow-mono, HasDistinctIds-append,
}
use alice_uprm.Wallet.Types.{
  WalletGrant, WalletRedemption, WalletPayoutReservation, AllocationRow, Wallet,
  CreateWalletGrantInput, HoldStatus, released,
}
use alice_uprm.Wallet.Grants.{grant_row, insert_grant, create_grant, record_delta}
use alice_uprm.Wallet.Spending.{grant_id, remaining_in, issued_in}
use alice_uprm.Wallet.Backing.{Keeps, held_in, AreBacked, AreBacked-grants}

-- The status of a hold that still takes its amount.
abbrev pub is_active : HoldStatus → Bool
is_active released = false
is_active _ = true

abbrev pub redemption_id : WalletRedemption → ℕ
redemption_id r = r.id

abbrev pub redemption_account : WalletRedemption → ℕ
redemption_account r = r.wallet_account_id

abbrev pub redemption_amount : WalletRedemption → ℤ
redemption_amount r = r.amount_credits

abbrev pub redemption_active : WalletRedemption → Bool
redemption_active r = is_active r.status

abbrev pub reservation_id : WalletPayoutReservation → ℕ
reservation_id r = r.id

abbrev pub reservation_account : WalletPayoutReservation → ℕ
reservation_account r = r.wallet_account_id

abbrev pub reservation_amount : WalletPayoutReservation → ℤ
reservation_amount r = r.amount_credits

abbrev pub reservation_active : WalletPayoutReservation → Bool
reservation_active r = is_active r.status

abbrev pub RedemptionsBacked :
    List WalletGrant → List AllocationRow → List WalletRedemption → ℕ → Type 0
RedemptionsBacked gs rows xs n =
    AreBacked redemption_id redemption_account redemption_amount redemption_active gs rows xs n

abbrev pub ReservationsBacked :
    List WalletGrant → List AllocationRow → List WalletPayoutReservation → ℕ → Type 0
ReservationsBacked gs rows xs n =
    AreBacked reservation_id reservation_account reservation_amount reservation_active gs rows xs n

abbrev pub redeemed_in : ℕ → WalletRedemption → ℤ
redeemed_in b r = held_in redemption_id redemption_account redemption_amount redemption_active b r

abbrev pub paid_in : ℕ → WalletPayoutReservation → ℤ
paid_in b r = held_in reservation_id reservation_account reservation_amount reservation_active b r

abbrev pub Conserves : ℕ → Wallet → Type 0
Conserves b w =
    sum_by (issued_in b) w.grants
    ≡ sum_by (remaining_in b) w.grants
      +ℤ sum_by (redeemed_in b) w.redemptions
      +ℤ sum_by (paid_in b) w.reservations

pub record IsConserved (w : Wallet) : Type 0 where
  pub grants_distinct : HasDistinctIds grant_id w.grants
  pub grants_below : HasIdsBelow grant_id w.next_id w.grants
  pub redemptions_backed :
      RedemptionsBacked w.grants w.redemption_allocations w.redemptions w.next_id
  pub reservations_backed :
      ReservationsBacked w.grants w.payout_allocations w.reservations w.next_id
  pub conserves : (b : ℕ) → Conserves b w

-- The two sums after a grant is inserted.
issued_in-insert :
    (b n now : ℕ) (i : CreateWalletGrantInput) (gs : List WalletGrant)
    → sum_by (issued_in b) (gs ++ grant_row n now i ∷ [])
      ≡ sum_by (issued_in b) gs +ℤ (if i.wallet_account_id == b then i.amount else pos 0)
unfolding sum_by grant_row
issued_in-insert b n now i gs =
    sum_by-append (issued_in b) gs (grant_row n now i ∷ [])
    ∙ ap (λ z. sum_by (issued_in b) gs +ℤ z) (+ℤ-zero (issued_in b (grant_row n now i)))

remaining_in-insert :
    (b n now : ℕ) (i : CreateWalletGrantInput) (gs : List WalletGrant)
    → sum_by (remaining_in b) (gs ++ grant_row n now i ∷ [])
      ≡ sum_by (remaining_in b) gs +ℤ (if i.wallet_account_id == b then i.amount else pos 0)
unfolding sum_by grant_row
remaining_in-insert b n now i gs =
    sum_by-append (remaining_in b) gs (grant_row n now i ∷ [])
    ∙ ap (λ z. sum_by (remaining_in b) gs +ℤ z) (+ℤ-zero (remaining_in b (grant_row n now i)))

Keeps-insert : (g : WalletGrant) (gs : List WalletGrant) → Keeps gs (gs ++ g ∷ [])
Keeps-insert g gs i a h = elim (Option-cases (by_id grant_id i gs)) [
  | inl absent ↦ absurd (ground arith)
  | inr (x, found) ↦ rw (find-append_some (λ y. y.id == i) gs (g ∷ []) x found) (rw found at h)
]

insert_grant-IsConserved :
    (now : ℕ) (i : CreateWalletGrantInput) (w : Wallet)
    → IsConserved w
    → IsConserved (insert_grant now i w).1
unfolding insert_grant grant_row
insert_grant-IsConserved now i w h = record {
  grants_distinct =
      HasDistinctIds-append grant_id w.next_id g w.grants refl h.grants_below h.grants_distinct;
  grants_below =
      All-append (λ x. x.id < w.next_id + 1) w.grants (g ∷ [])
        (HasIdsBelow-mono grant_id w.next_id (w.next_id + 1) w.grants (omega arith) h.grants_below)
        (omega arith, tt);
  redemptions_backed =
      AreBacked-grants _ _ _ _ w.grants _ w.redemption_allocations w.redemptions w.next_id _
        (Keeps-insert g w.grants) (omega arith) h.redemptions_backed;
  reservations_backed =
      AreBacked-grants _ _ _ _ w.grants _ w.payout_allocations w.reservations w.next_id _
        (Keeps-insert g w.grants) (omega arith) h.reservations_backed;
  conserves = λ b.
      rw
        (
          issued_in-insert b w.next_id now i w.grants,
          remaining_in-insert b w.next_id now i w.grants,
        )
        (omega (int_laws, parts_of_eq _ _ (h.conserves b)));
}
  where
    g : WalletGrant
    g = grant_row w.next_id now i

-- Issuing a grant keeps the law.
pub create_grant-IsConserved :
    (now : ℕ) (i : CreateWalletGrantInput) (w : Wallet)
    → IsConserved w
    → IsConserved (create_grant now i w).1
unfolding create_grant
create_grant-IsConserved now i w h = elim (Bool-cases (leb_ℤ i.amount (pos 0))) [
  | inl bad ↦ rw bad h
  | inr good ↦ rw good (insert_grant-IsConserved now i w h)
]

pub record_delta-IsConserved :
    (now : ℕ) (i : CreateWalletGrantInput) (w : Wallet)
    → IsConserved w
    → IsConserved (record_delta now i w).1
unfolding record_delta
record_delta-IsConserved now i w h = elim (Bool-cases (eqb_ℤ i.amount (pos 0))) [
  | inl bad ↦ rw bad h
  | inr good ↦ rw good (insert_grant-IsConserved now i w h)
]
