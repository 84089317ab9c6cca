-- ===== src/Wallet/Allocation.antt =====
-- `WalletAllocationService` of packages/domain/wallet/src/wallet-allocation.service.ts.
use alice_uprm.Prelude.{List, [], ◌∷◌, leb, if◌then◌else◌}
use alice_uprm.Prelude.Int.{ℤ, pos, ◌-ℤ◌, leb_ℤ, ltb_ℤ, eqb_ℤ}
use alice_uprm.Prelude.Exec.{Error, Result, ok, err}
use alice_uprm.Wallet.Types.{WalletGrant, WalletAllocation}

-- `sort` by `createdAt`, which is stable.
unfoldable pub insert_by_date : WalletGrant → List WalletGrant → List WalletGrant
insert_by_date g [] = g ∷ []
insert_by_date g (h ∷ hs) =
    if leb g.created_at h.created_at then g ∷ h ∷ hs else h ∷ insert_by_date g hs

unfoldable pub sort_by_date : List WalletGrant → List WalletGrant
unfolding insert_by_date
sort_by_date [] = []
sort_by_date (g ∷ gs) = insert_by_date g (sort_by_date gs)

unfoldable pub allocation : WalletGrant → ℤ → WalletAllocation
allocation g amount = record {
  wallet_grant_id = g.id;
  issuer_tenant_id = g.issuer_tenant_id;
  amount_credits = amount;
}

-- The loop: what is still to be allocated at its end, and what it has pushed.
unfoldable pub allocate : ℤ → List WalletGrant → ℤ × List WalletAllocation
allocate remaining [] = (remaining, [])
allocate remaining (g ∷ gs) =
    let amount = if leb_ℤ remaining g.amount_remaining then remaining else g.amount_remaining in
    let skipped = allocate remaining gs in
    let rest = allocate (remaining -ℤ amount) gs in
    if eqb_ℤ remaining (pos 0)
    then (remaining, [])
    else if leb_ℤ g.amount_remaining (pos 0)
    then skipped
    else (rest.0, allocation g amount ∷ rest.1)

unfoldable pub allocate_fifo : List WalletGrant → ℤ → Result (List WalletAllocation)
unfolding sort_by_date allocate
allocate_fifo grants amount_credits =
    if leb_ℤ amount_credits (pos 0)
    then err Error.amount_not_positive
    else (let (remaining, allocations) = allocate amount_credits (sort_by_date grants) in
        if ltb_ℤ (pos 0) remaining then err Error.insufficient_grants else ok allocations)
