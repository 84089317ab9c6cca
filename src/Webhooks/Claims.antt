-- ===== src/Webhooks/Claims.antt =====
-- Workers that claim deliveries at the same time (`claimDueBatch` of
-- packages/domain/webhooks/src/delivery.service.ts).
use alice_uprm.Prelude.{◌≡◌, refl, Bool, false, List, [], ◌∷◌, arith}
use alice_uprm.Prelude.Rows.{update_where, any}
use alice_uprm.Webhooks.Types.{delivering, status_eq, DeliveryRecord, Deliveries}
use alice_uprm.Webhooks.Delivery.{is_unclaimed, as_delivering, claim_row}

-- The claims of any workers, in the order in which the database runs them.
abbrev pub claim_all : List DeliveryRecord → Deliveries → Deliveries
claim_all [] s = s
claim_all (row ∷ rows) s = claim_all rows (claim_row row s).1

no_hit :
    (row d : DeliveryRecord)
    → status_eq row.status delivering ≡ false
    → is_unclaimed row (as_delivering d) ≡ false
unfolding is_unclaimed
no_hit row d h = ground arith

module _ (row : DeliveryRecord) (h : status_eq row.status delivering ≡ false) where
  -- Any claim leaves the rows that `row` no longer matches as they are for `row`.
  claim-stays :
      (p : DeliveryRecord → Bool) (xs : List DeliveryRecord)
      → any (is_unclaimed row) xs ≡ false
      → any (is_unclaimed row) (update_where p as_delivering xs) ≡ false
  claim-stays p [] e = refl
  claim-stays p (x ∷ xs) e = ground (arith, no_hit row x h, claim-stays p xs)

  claim-own :
      (xs : List DeliveryRecord)
      → any (is_unclaimed row) (update_where (is_unclaimed row) as_delivering xs) ≡ false
  claim-own [] = refl
  claim-own (x ∷ xs) = ground (arith, no_hit row x h, claim-own xs)

  claim_all-stays :
      (rows : List DeliveryRecord) (s : Deliveries)
      → any (is_unclaimed row) s.rows ≡ false
      → any (is_unclaimed row) (claim_all rows s).rows ≡ false
  unfolding claim_row
  claim_all-stays [] s e = e
  claim_all-stays (r ∷ rs) s e =
      claim_all-stays rs (claim_row r s).1 (claim-stays (is_unclaimed r) s.rows e)

-- A delivery that was read while it was not being delivered is claimed once only on what was read:
-- after the first claim, and any further claims of any workers, a second claim hits no row.
pub claim_row_once :
    (row : DeliveryRecord) (rows : List DeliveryRecord) (s : Deliveries)
    → status_eq row.status delivering ≡ false
    → (claim_row row (claim_all rows (claim_row row s).1)).0 ≡ false
unfolding claim_row
claim_row_once row rows s h =
    claim_all-stays row h rows (claim_row row s).1 (claim-own row h s.rows)
