-- ===== src/Referrals/Codes.antt =====
-- The codes of `ReferralService` (packages/domain/referrals/src/referral.service.ts). `random` gives
-- the bytes that each attempt draws.
use alice_uprm.Prelude.{
  ℕ, zero, suc, ◌+◌, ◌%◌, Bool, true, false, ◌&&◌, Option, List, [], ◌∷◌, ◌++◌, ltb, ◌==◌,
  if◌then◌else◌, length,
}
use alice_uprm.Prelude.Text.{Text, codes, text_eq}
use alice_uprm.Prelude.Exec.{Error, ok, err, Exec, throw, try_catch}
use alice_uprm.Prelude.Rows.{find, any}
use alice_uprm.Referrals.Types.{ReferralCode, Referrals, CreateCodeInput}

abbrev pub code_alphabet : Text
code_alphabet = codes "ABCDEFGHJKLMNPQRSTUVWXYZ23456789"

-- `out += undefined` past the end, which the remainder never reaches.
unfoldable pub letter_at : ℕ → Text → Text
letter_at n [] = codes "undefined"
letter_at zero (c ∷ cs) = c ∷ []
letter_at (suc n) (c ∷ cs) = letter_at n cs

unfoldable pub generate_code : List ℕ → Text
generate_code [] = []
generate_code (byte ∷ bytes) =
    letter_at (byte % length code_alphabet) code_alphabet ++ generate_code bytes

unfoldable pub is_code_of : ℕ → Text → ReferralCode → Bool
is_code_of tenant_id code c = c.tenant_id == tenant_id && text_eq c.code code

unfoldable pub code_row : ℕ → CreateCodeInput → Text → ReferralCode
code_row id input code = record {
  id = id;
  tenant_id = input.tenant_id;
  tenant_user_id = input.tenant_user_id;
  code = code;
  status = codes "active";
  expires_at = input.expires_at;
}

-- `referralCode.create`, with its unique index on the tenant and the code.
unfoldable pub insert_code : CreateCodeInput → Text → Exec Referrals ReferralCode
insert_code input code s =
    if any (is_code_of input.tenant_id code) s.codes then (err Error.unique_violation, s) else (
      ok (code_row s.next_id input code),
      record s { codes = s.codes ++ code_row s.next_id input code ∷ []; next_id = s.next_id + 1 },
    )

abbrev pub is_unique_violation : Error → Bool
is_unique_violation Error.unique_violation = true
is_unique_violation _ = false

-- The loop: `left` attempts are left, `attempt` is the number of the next one.
unfoldable pub create_attempts :
    (ℕ → List ℕ) → CreateCodeInput → ℕ → ℕ → Exec Referrals ReferralCode
create_attempts random input zero attempt = throw Error.code_exhausted
create_attempts random input (suc left) attempt =
    let rest = create_attempts random input left (attempt + 1) in
    try_catch (insert_code input (generate_code (random attempt)))
      (λ e. if is_unique_violation e && ltb attempt 4 then rest else throw e)

unfoldable pub create_code : (ℕ → List ℕ) → CreateCodeInput → Exec Referrals ReferralCode
create_code random input = create_attempts random input 5 0

unfoldable pub resolve_code : ℕ → Text → Referrals → Option ReferralCode
resolve_code tenant_id code s = find (is_code_of tenant_id code) s.codes
