-- ===== src/Payouts/Calls.antt =====
-- What the calls on a payout request leave in its table
-- (packages/domain/payouts/src/payout.service.ts).
use alice_uprm.Prelude.{
  ℕ, ◌≡◌, refl, ap, ◌∙◌, ◌⊎◌, inl, inr, Bool, true, false, not, Option, none, some, ◌==◌,
  Bool-cases, Option-cases,
}
use alice_uprm.Prelude.Text.{Text}
use alice_uprm.Prelude.Exec.{
  Error, Result, ok, err, Exec, ◌>>=◌, ◌>>◌, throw_if, >>=-of_ok, >>=-of_err,
}
use alice_uprm.Prelude.Rows.{find}
use alice_uprm.Prelude.Keyed.{by_id, update_id}
use alice_uprm.Ledger.Types.{Ledger, tenant_cash, payout_payable}
use alice_uprm.Ledger.Accounts.{ensure_system_account}
use alice_uprm.Wallet.Types.{Wallet}
use alice_uprm.Wallet.Payout.{mark_reservation_sent, release_reservation}
use alice_uprm.Payouts.Types.{PayoutStatus, PayoutRequest, Platform, in_ledger, in_wallet}
use alice_uprm.Payouts.Requests.{
  found_or, payout_id, require_payout, require_reservation, update_payout, execute_payout,
  return_credits,
}

-- A step that leaves the payout requests alone.
pub record Keeps {ℓ} {A : Type ℓ} (m : Exec Platform A) : Type 0 where
  pub kept : (s : Platform) → (m s).1.payouts ≡ s.payouts

in_ledger-Keeps {ℓ} : {A : Type ℓ} (m : Exec Ledger A) → Keeps (in_ledger m)
unfolding in_ledger
in_ledger-Keeps m = record { kept = λ s. refl }

in_wallet-Keeps {ℓ} : {A : Type ℓ} (m : Exec Wallet A) → Keeps (in_wallet m)
unfolding in_wallet
in_wallet-Keeps m = record { kept = λ s. refl }

found_or-Keeps {ℓ} : {A : Type ℓ} (e : Error) (o : Option A) → Keeps (found_or e o)
unfolding found_or
found_or-Keeps e none = record { kept = λ s. refl }
found_or-Keeps e (some a) = record { kept = λ s. refl }

-- The rest of a chain, from what its first step returned.
abbrev and_then {ℓ κ} :
    {A : Type ℓ} {B : Type κ} → (A → Exec Platform B) → Result A × Platform → Result B × Platform
and_then f x = elim x.0 [ ok a ↦ f a x.1 | err e ↦ (err e, x.1) ]

module _ {ℓ κ} {A : Type ℓ} {B : Type κ} where
  >>=-Keeps :
      (m : Exec Platform A) (f : A → Exec Platform B)
      → Keeps m
      → ((a : A) → Keeps (f a))
      → Keeps (m >>= f)
  >>=-Keeps m f h k = record { kept = λ s. go s (m s) (h.kept s) }
    where
      go :
          (s : Platform) (x : Result A × Platform)
          → x.1.payouts ≡ s.payouts
          → (and_then f x).1.payouts ≡ s.payouts
      go s (ok a, s') e = (k a).kept s' ∙ e
      go s (err a, s') e = e

require_reservation-Keeps : (id : ℕ) → Keeps (require_reservation id)
unfolding require_reservation
require_reservation-Keeps id = record {
  kept = λ s.
      (found_or-Keeps Error.wallet_payout_not_found
          (find (λ r. r.payout_request_id == id) s.wallet.reservations)).kept
        s;
}

pub execute_payout-Keeps :
    (id_text : ℕ → Text) (others : Ledger → Ledger) (p : PayoutRequest)
    → Keeps (execute_payout id_text others p)
unfolding execute_payout
execute_payout-Keeps id_text others p = >>=-Keeps _ _ (require_reservation-Keeps p.id) (λ r.
    >>=-Keeps _ _ (in_wallet-Keeps (mark_reservation_sent r.id)) (λ _.
      >>=-Keeps _ _
        (in_ledger-Keeps (ensure_system_account p.tenant_id tenant_cash p.base_currency))
        (λ cash.
          >>=-Keeps _ _
            (in_ledger-Keeps (ensure_system_account p.tenant_id payout_payable p.base_currency))
            (λ payable. in_ledger-Keeps _))))

pub return_credits-Keeps : (p : PayoutRequest) → Keeps (return_credits p)
unfolding return_credits
return_credits-Keeps p =
    >>=-Keeps _ _ (require_reservation-Keeps p.id) (λ r. in_wallet-Keeps (release_reservation r.id))

-- What a call on a payout leaves in the table: the table as it was, or the request changed by `f`,
-- which then had a status that the call accepts.
abbrev pub Left :
    (PayoutStatus → Bool) → ℕ → (PayoutRequest → PayoutRequest) → Platform → Platform → Type 0
Left accepts id f s s' =
    (s'.payouts ≡ s.payouts)
    ⊎ ((p : PayoutRequest) × (by_id payout_id id s.payouts ≡ some p)
        × (accepts p.status ≡ true)
        × (s'.payouts ≡ update_id payout_id id f s.payouts))

-- The shape of every call: look the request up, check its status, act, write the new status.
module _ {ℓ} {A : Type ℓ} (accepts : PayoutStatus → Bool) (id : ℕ)
    (f : PayoutRequest → PayoutRequest) (act : PayoutRequest → Exec Platform A) where
  update_payout-payouts :
      (p : PayoutRequest) (s : Platform)
      → by_id payout_id id s.payouts ≡ some p
      → (update_payout id f s).1.payouts ≡ update_id payout_id id f s.payouts
  unfolding update_payout
  update_payout-payouts p s found = rw (found, update_payout)

  abbrev on_payout : PayoutRequest → Exec Platform PayoutRequest
  on_payout payout = do
    throw_if (not (accepts payout.status)) Error.bad_status
    _ ← act payout
    update_payout id f

  abbrev pub call : Exec Platform PayoutRequest
  call = require_payout id >>= on_payout

  call-absent :
      (s : Platform)
      → by_id payout_id id s.payouts ≡ none
      → call s ≡ (err Error.payout_not_found, s)
  unfolding require_payout found_or
  call-absent s h = >>=-of_err (require_payout id) on_payout s Error.payout_not_found s step
    where
      step : require_payout id s ≡ (err Error.payout_not_found, s)
      step = ap (λ (o : Option PayoutRequest). found_or Error.payout_not_found o s) h

  module _ (p : PayoutRequest) (s : Platform) (found : by_id payout_id id s.payouts ≡ some p) where
    call-found : call s ≡ on_payout p s
    unfolding require_payout found_or
    call-found = >>=-of_ok (require_payout id) on_payout s p s step
      where
        step : require_payout id s ≡ (ok p, s)
        step = ap (λ (o : Option PayoutRequest). found_or Error.payout_not_found o s) found

    call-refused : accepts p.status ≡ false → call s ≡ (err Error.bad_status, s)
    call-refused h = call-found ∙ rw h

    call-accepted : accepts p.status ≡ true → call s ≡ and_then (λ _. update_payout id f) (act p s)
    call-accepted h = call-found ∙ rw h

    and_then-Left :
        (x : Result A × Platform)
        → accepts p.status ≡ true
        → x.1.payouts ≡ s.payouts
        → Left accepts id f s (and_then (λ _. update_payout id f) x).1
    and_then-Left (ok a, s') good same =
        let still = ap (by_id payout_id id) same ∙ found in
        inr (p, found, good, update_payout-payouts p s' still ∙ ap (update_id payout_id id f) same)
    and_then-Left (err e, s') good same = inl same

  pub call-Left :
      ((p : PayoutRequest) → Keeps (act p)) → (s : Platform) → Left accepts id f s (call s).1
  call-Left quiet s = elim (Option-cases (by_id payout_id id s.payouts)) [
    | inl absent ↦ rw (call-absent s absent) (inl refl)
    | inr (p, found) ↦ elim (Bool-cases (accepts p.status)) [
      | inr bad ↦ rw (call-refused p s found bad) (inl refl)
      | inl good ↦
          rw (call-accepted p s found good)
            (and_then-Left p s found (act p s) good ((quiet p).kept s))
    ]
  ]
