-- ===== src/Prelude/Exec.antt =====
-- Service methods: they read and write tables and may throw. What was written before a throw
-- stays written, so the state comes back beside the error too.

use mathlib.Core.Path.{◌≡◌, refl, ap}
use mathlib.Core.Logic.{◌⊎◌, inl, inr}
use alice_uprm.Prelude.Text.{Text}
use mathlib.Core.Bool.{Bool, true, false}
use mathlib.Core.List.{List, [], ◌∷◌}

-- The codes of `LedgerError`, `PayoutError`, `ReferralError`, `PromoterError`, the messages of the
-- plain `Error`s, and Prisma's unique violation (P2002) and missing row (P2025).
pub data Error : Type 0 where
  bad_currency bad_idempotency_key too_few_postings unbalanced_entry : Error
  account_not_found account_cross_tenant currency_mismatch account_inactive : Error
  unknown_account_type : Error
  unique_violation record_not_found : Error
  amount_not_positive amount_zero insufficient_grants : Error
  syntax_error : Error
  bad_amount tenant_user_not_found tenant_not_found insufficient_balance : Error
  cycle_already_open cycle_not_found cycle_not_open : Error
  delivery_not_found delivery_not_replayable : Error
  risk_case_not_found risk_case_not_open : Error
  code_exhausted code_not_found code_expired self_referral cycle_detected edge_locked : Error
  thrown : Text → Error  -- any other error, by its message
  bad_status wallet_payout_not_found payout_not_found : Error

pub data Result {ℓ} (A : Type ℓ) : Type ℓ where
  ok : A → Result A
  err : Error → Result A

abbrev pub Exec {ℓ κ} : Type ℓ → Type κ → Type (ℓ ⊔ κ)
Exec S A = S → Result A × S

module _ {ℓ κ} {S : Type ℓ} {A : Type κ} where
  abbrev pub pure : A → Exec S A
  pure a s = (ok a, s)

  abbrev pub throw : Error → Exec S A
  throw e s = (err e, s)

  abbrev pub gets : (S → A) → Exec S A
  gets f s = (ok (f s), s)

  abbrev pub lift : Result A → Exec S A
  lift r s = (r, s)

  -- `$transaction`: a throw inside rolls the tables back.
  abbrev pub transaction : Exec S A → Exec S A
  transaction m s = let (r, s') = m s in elim r [ ok a ↦ (ok a, s') | err e ↦ (err e, s) ]

infixl 5 ◌>>=◌ ◌>>◌
abbrev pub ◌>>=◌ {ℓ κ ν} :
    {S : Type ℓ} {A : Type κ} {B : Type ν} → Exec S A → (A → Exec S B) → Exec S B
◌>>=◌ m f s = let (r, s') = m s in elim r [ ok a ↦ f a s' | err e ↦ (err e, s') ]

abbrev pub ◌>>◌ {ℓ κ ν} : {S : Type ℓ} {A : Type κ} {B : Type ν} → Exec S A → Exec S B → Exec S B
m >> k = m >>= λ _. k

abbrev pub modify {ℓ} : {S : Type ℓ} → (S → S) → Exec S (Unit {0})
modify f s = (ok tt, f s)

abbrev pub throw_if {ℓ} : {S : Type ℓ} → Bool → Error → Exec S (Unit {0})
throw_if true e s = (err e, s)
throw_if false e s = (ok tt, s)

-- `try { … } catch (e) { … }`
unfoldable pub try_catch {ℓ κ} :
    {S : Type ℓ} {A : Type κ} → Exec S A → (Error → Exec S A) → Exec S A
try_catch m handler s = let (r, s') = m s in elim r [ ok a ↦ (ok a, s') | err e ↦ handler e s' ]

-- `for (const x of xs) await body(x)`: a throw ends the loop.
unfoldable pub for_each {ℓ κ} :
    {S : Type ℓ} {A : Type κ} → List A → (A → Exec S (Unit {0})) → Exec S (Unit {0})
for_each [] body s = (ok tt, s)
for_each (x ∷ xs) body s =
    let (r, s') = body x s in elim r [ ok _ ↦ for_each xs body s' | err e ↦ (err e, s') ]

-- A step that returns, and one that throws, at the head of a chain.
module _ {ℓ κ ν} {S : Type ℓ} {A : Type κ} {B : Type ν} (m : Exec S A) (f : A → Exec S B)
    (s : S) where
  pub >>=-of_ok : (a : A) (s' : S) → m s ≡ (ok a, s') → (m >>= f) s ≡ f a s'
  >>=-of_ok a s' h = ap (λ (x : Result A × S). elim x.0 [ ok b ↦ f b x.1 | err e ↦ (err e, x.1) ]) h

  pub >>=-of_err : (e : Error) (s' : S) → m s ≡ (err e, s') → (m >>= f) s ≡ (err e, s')
  >>=-of_err e s' h =
      ap (λ (x : Result A × S). elim x.0 [ ok b ↦ f b x.1 | err e ↦ (err e, x.1) ]) h

-- A round that returns.
module _ {ℓ κ} {S : Type ℓ} {A : Type κ} (body : A → Exec S (Unit {0})) where
  pub for_each-step :
      (x : A) (xs : List A) (s s' : S)
      → body x s ≡ (ok tt, s')
      → for_each (x ∷ xs) body s ≡ for_each xs body s'
  unfolding for_each
  for_each-step x xs s s' h =
      ap
        (λ (y : Result (Unit {0}) × S). elim y.0 [
          | ok _ ↦ for_each xs body y.1
          | err e ↦ (err e, y.1)
        ])
        h

pub Result-cases {ℓ} :
    {A : Type ℓ} (r : Result A) → ((a : A) × (r ≡ ok a)) ⊎ ((e : Error) × (r ≡ err e))
Result-cases (ok a) = inl (a, refl)
Result-cases (err e) = inr (e, refl)

pub transaction-of_ok {ℓ κ} :
    {S : Type ℓ} {A : Type κ} (m : Exec S A) (s : S) (a : A) (s' : S)
    → m s ≡ (ok a, s')
    → transaction m s ≡ (ok a, s')
transaction-of_ok m s a s' h =
    ap (λ (x : Result _ × _). elim x.0 [ ok b ↦ (ok b, x.1) | err e ↦ (err e, s) ]) h

module _ {ℓ κ} {S : Type ℓ} {A : Type κ} (m : Exec S A) (handler : Error → Exec S A) (s : S) where
  pub try_catch-of_ok : (a : A) (s' : S) → m s ≡ (ok a, s') → try_catch m handler s ≡ (ok a, s')
  unfolding try_catch
  try_catch-of_ok a s' h =
      ap (λ (x : Result A × S). elim x.0 [ ok b ↦ (ok b, x.1) | err e ↦ handler e x.1 ]) h

  pub try_catch-of_err :
      (e : Error) (s' : S) → m s ≡ (err e, s') → try_catch m handler s ≡ handler e s'
  unfolding try_catch
  try_catch-of_err e s' h =
      ap (λ (x : Result A × S). elim x.0 [ ok b ↦ (ok b, x.1) | err d ↦ handler d x.1 ]) h

-- A step that keeps a fact of the state, whether it returns or throws.
abbrev pub Keeps {ℓ κ ν} : {S : Type ℓ} {A : Type κ} → (S → Type ν) → Exec S A → Type (ℓ ⊔ ν)
Keeps P m = (s : _) → P s → P (m s).1

module _ {ℓ κ ν μ} {S : Type ℓ} {A : Type κ} {B : Type ν} (P : S → Type μ) where
  abbrev next : (A → Exec S B) → Result A × S → Result B × S
  next f x = elim x.0 [ ok a ↦ f a x.1 | err e ↦ (err e, x.1) ]

  pub >>=-Keeps :
      (m : Exec S A) (f : A → Exec S B) → Keeps P m → ((a : A) → Keeps P (f a)) → Keeps P (m >>= f)
  >>=-Keeps m f h k s p = go (m s) (h s p)
    where
      go : (x : Result A × S) → P x.1 → P (next f x).1
      go (ok a, t) q = k a t q
      go (err e, t) q = q
