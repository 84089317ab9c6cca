-- ===== src/Rewards/Decimal.antt =====
-- `parseMoneyToMinor` and `parsePercentScaled` of packages/domain/rewards/src/reward.service.ts.
-- `BigInt` is modelled on decimal digits, which is all that the schema of config.ts admits; on another
-- text the model throws.
use alice_uprm.Prelude.{
  ℕ, ◌+◌, ◌-◌, ◌*◌, Bool, ◌&&◌, List, [], ◌∷◌, ◌++◌, leb, ◌==◌, if◌then◌else◌, take,
}
use alice_uprm.Prelude.Text.{Text, codes}
use alice_uprm.Prelude.Exec.{Error, Result, ok, err}

abbrev pub dot : ℕ
dot = 46

abbrev cons_head : ℕ → List Text → List Text
cons_head x [] = (x ∷ []) ∷ []
cons_head x (part ∷ parts) = (x ∷ part) ∷ parts

-- `s.split('.')`
unfoldable pub split : Text → List Text
split [] = [] ∷ []
split (x ∷ xs) = let parts = split xs in if x == dot then [] ∷ parts else cons_head x parts

-- `const [whole, frac = ''] = parts`
abbrev pub whole_part : List Text → Text
whole_part [] = []
whole_part (whole ∷ _) = whole

abbrev pub frac_part : List Text → Text
frac_part [] = []
frac_part (_ ∷ []) = []
frac_part (_ ∷ frac ∷ _) = frac

abbrev pub is_digit : ℕ → Bool
is_digit c = leb 48 c && leb c 57

unfoldable pub digits_from : ℕ → Text → Result ℕ
digits_from n [] = ok n
digits_from n (c ∷ cs) =
    let rest = digits_from (n * 10 + (c - 48)) cs in
    if is_digit c then rest else err Error.syntax_error

-- `BigInt(s)`; the empty text is 0.
unfoldable pub big_int : Text → Result ℕ
big_int s = digits_from 0 s

-- `BigInt(whole) * scale + BigInt(padded)`
unfoldable pub scaled : ℕ → Text → Text → Result ℕ
scaled scale whole padded = elim (big_int whole) [
  | err e ↦ err e
  | ok w ↦ elim (big_int padded) [ err e ↦ err e | ok f ↦ ok (w * scale + f) ]
]

unfoldable pub parse_money_to_minor : Text → Result ℕ
parse_money_to_minor s =
    scaled 100 (whole_part (split s)) (take 2 (frac_part (split s) ++ codes "00"))

unfoldable pub parse_percent_scaled : Text → Result ℕ
parse_percent_scaled s =
    scaled 10000 (whole_part (split s)) (take 4 (frac_part (split s) ++ codes "0000"))
