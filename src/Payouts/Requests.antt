-- ===== src/Payouts/Requests.antt =====
-- `PayoutService` of packages/domain/payouts/src/payout.service.ts. `now` is the clock of the call,
-- `id_text` the text of an id, and `others` what other clients commit to the ledger during it.
use alice_uprm.Prelude.{
  ℕ, ◌+◌, Bool, true, false, not, ◌&&◌, ◌||◌, Option, none, some, [], ◌∷◌, ◌++◌, ◌==◌,
}
use alice_uprm.Prelude.Int.{pos, neg, leb_ℤ, ltb_ℤ}
use alice_uprm.Prelude.Text.{Text, codes}
use alice_uprm.Prelude.Exec.{Error, ok, err, Exec, pure, gets, ◌>>=◌, ◌>>◌, throw_if}
use alice_uprm.Prelude.Rows.{find}
use alice_uprm.Prelude.Keyed.{by_id, update_id}
use alice_uprm.Ledger.Types.{Ledger, tenant_cash, payout_payable, PostedEntry}
use alice_uprm.Ledger.Accounts.{ensure_system_account}
use alice_uprm.Ledger.Posting.{post_entry}
use alice_uprm.Wallet.Types.{WalletPayoutReservation, Wallet}
use alice_uprm.Wallet.Grants.{ensure_wallet_account, wallet_balance}
use alice_uprm.Wallet.Payout.{reserve_payout, mark_reservation_sent, release_reservation}
use alice_uprm.Payouts.Types.{
  TenantUser, PayoutStatus, requested, approved, sent, failed, cancelled, PayoutRequest,
  RequestPayoutInput, Platform, in_ledger, in_wallet,
}

-- `throw` where nothing was found.
unfoldable pub found_or {ℓ} : {A : Type ℓ} → Error → Option A → Exec Platform A
found_or e none s = (err e, s)
found_or e (some a) s = (ok a, s)

abbrev pub payout_id : PayoutRequest → ℕ
payout_id p = p.id

unfoldable pub require_payout : ℕ → Exec Platform PayoutRequest
require_payout id s = found_or Error.payout_not_found (by_id payout_id id s.payouts) s

unfoldable pub require_reservation : ℕ → Exec Platform WalletPayoutReservation
require_reservation payout s =
    found_or Error.wallet_payout_not_found
      (find (λ r. r.payout_request_id == payout) s.wallet.reservations) s

-- `payoutRequest.update({ where: { id }, data })`
unfoldable pub update_payout : ℕ → (PayoutRequest → PayoutRequest) → Exec Platform PayoutRequest
update_payout id f s = elim (by_id payout_id id s.payouts) [
  | none ↦ (err Error.record_not_found, s)
  | some p ↦ (ok (f p), record s { payouts = update_id payout_id id f s.payouts })
]

unfoldable pub payout_row : ℕ → RequestPayoutInput → TenantUser → ℕ → PayoutRequest
payout_row id input user account = record {
  id = id;
  tenant_id = input.tenant_id;
  tenant_user_id = input.tenant_user_id;
  user_id = user.user_id;
  wallet_account_id = account;
  amount_minor = input.amount_minor;
  amount_credits = input.amount_minor;
  base_currency = codes "credit";
  destination_currency = input.destination_currency;
  payout_method = input.payout_method;
  destination = input.destination;
  issuer_breakdown = none;
  status = requested;
  failure_reason = none;
  approved_at = none;
  sent_at = none;
  failed_at = none;
  cancelled_at = none;
}

unfoldable pub create_payout : RequestPayoutInput → TenantUser → ℕ → Exec Platform PayoutRequest
create_payout input user account s = (
  ok (payout_row s.next_payout_id input user account),
  record s {
    payouts = s.payouts ++ payout_row s.next_payout_id input user account ∷ [];
    next_payout_id = s.next_payout_id + 1;
  },
)

-- `walletPayoutReservation.update({ where: { id }, data: { payoutRequestId } })`
unfoldable pub link_reservation : ℕ → ℕ → Exec Wallet (Unit {0})
link_reservation id payout w = elim (by_id (λ r. r.id) id w.reservations) [
  | none ↦ (err Error.record_not_found, w)
  | some _ ↦ (
    ok tt,
    record w {
      reservations =
          update_id (λ r. r.id) id (λ r. record r { payout_request_id = payout }) w.reservations;
    },
  )
]

-- From the payout on: the row, the reservation, and the breakdown by issuer.
unfoldable pub place_payout : RequestPayoutInput → TenantUser → ℕ → Exec Platform PayoutRequest
place_payout input user account = do
  payout ← create_payout input user account
  reserved ← in_wallet (
      reserve_payout (record {
        wallet_account_id = account;
        payout_request_id = payout.id;
        amount_credits = input.amount_minor;
      }))
  updated ← update_payout payout.id (λ p. record p { issuer_breakdown = some reserved.1 })
  in_wallet (link_reservation reserved.0.id updated.id)
  pure updated

unfoldable pub is_tenant_user : RequestPayoutInput → TenantUser → Bool
is_tenant_user input u = u.id == input.tenant_user_id && u.tenant_id == input.tenant_id

unfoldable pub request_payout : RequestPayoutInput → Exec Platform PayoutRequest
request_payout input = do
  throw_if (leb_ℤ input.amount_minor (pos 0)) Error.bad_amount
  found_user ← gets (λ s. find (is_tenant_user input) s.tenant_users)
  user ← found_or Error.tenant_user_not_found found_user
  found_tenant ← gets (λ s. by_id (λ t. t.id) input.tenant_id s.tenants)
  tenant ← found_or Error.tenant_not_found found_tenant
  account ← in_wallet (ensure_wallet_account user.user_id)
  balance ← gets (λ s. wallet_balance account.id s.wallet)
  throw_if (ltb_ℤ balance input.amount_minor) Error.insufficient_balance
  place_payout input user account.id

abbrev pub is_requested : PayoutStatus → Bool
is_requested requested = true
is_requested _ = false

abbrev pub is_approved : PayoutStatus → Bool
is_approved approved = true
is_approved _ = false

unfoldable pub approve_payout : ℕ → ℕ → Exec Platform PayoutRequest
approve_payout now id = do
  payout ← require_payout id
  throw_if (not (is_requested payout.status)) Error.bad_status
  update_payout id (λ p. record p { status = approved; approved_at = some now })

-- The reservation, and the entry from the payable account to the cash account.
unfoldable pub execute_payout :
    (ℕ → Text) → (Ledger → Ledger) → PayoutRequest → Exec Platform PostedEntry
execute_payout id_text others payout = do
  reservation ← require_reservation payout.id
  in_wallet (mark_reservation_sent reservation.id)
  cash ← in_ledger (ensure_system_account payout.tenant_id tenant_cash payout.base_currency)
  payable ← in_ledger (ensure_system_account payout.tenant_id payout_payable payout.base_currency)
  in_ledger (
      post_entry others (record {
        tenant_id = payout.tenant_id;
        currency = payout.base_currency;
        description = codes "Execute payout " ++ id_text payout.id;
        idempotency_key = codes "payout-sent:" ++ id_text payout.id;
        source_event_id = none;
        postings =
            record { account_id = cash.id; amount = neg payout.amount_minor }
            ∷ record { account_id = payable.id; amount = payout.amount_minor }
            ∷ [];
      }))

unfoldable pub mark_sent : (ℕ → Text) → (Ledger → Ledger) → ℕ → ℕ → Exec Platform PayoutRequest
mark_sent id_text others now id = do
  payout ← require_payout id
  throw_if (not (is_approved payout.status)) Error.bad_status
  entry ← execute_payout id_text others payout
  update_payout id (λ p. record p { status = sent; sent_at = some now })

unfoldable pub return_credits : PayoutRequest → Exec Platform WalletPayoutReservation
return_credits payout = do
  reservation ← require_reservation payout.id
  in_wallet (release_reservation reservation.id)

unfoldable pub fail_payout : ℕ → Option Text → ℕ → Exec Platform PayoutRequest
fail_payout now reason id = do
  payout ← require_payout id
  throw_if (not (is_requested payout.status || is_approved payout.status)) Error.bad_status
  reservation ← return_credits payout
  update_payout id
      (λ p. record p { status = failed; failure_reason = reason; failed_at = some now })

unfoldable pub cancel_payout : ℕ → ℕ → Exec Platform PayoutRequest
cancel_payout now id = do
  payout ← require_payout id
  throw_if (not (is_requested payout.status)) Error.bad_status
  reservation ← return_credits payout
  update_payout id (λ p. record p { status = cancelled; cancelled_at = some now })
