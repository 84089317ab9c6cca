-- ===== src/Rewards/Decimals.antt =====
-- What `parseMoneyToMinor` and `parsePercentScaled` return for a decimal number, which is what the
-- schema of packages/domain/rewards/src/config.ts admits: digits, with up to four more after a point.
use alice_uprm.Prelude.{
  ℕ, zero, suc, ◌+◌, ◌-◌, ◌*◌, ◌^◌, ◌≤◌, ◌<◌, ◌≡◌, refl, ap, ◌∙◌, true, false, [], ◌∷◌, ◌++◌, arith,
  ◌==◌, length, take, length-append, All,
}
use alice_uprm.Prelude.Text.{Text, codes}
use alice_uprm.Prelude.Exec.{ok}
use alice_uprm.Rewards.Decimal.{
  dot, split, whole_part, frac_part, is_digit, digits_from, big_int, scaled, parse_money_to_minor,
  parse_percent_scaled,
}

abbrev pub IsDigit : ℕ → Type 0
IsDigit c = (48 ≤ c) × (c ≤ 57)

abbrev pub AreDigits : Text → Type 0
AreDigits s = All IsDigit s

-- The number that digits stand for, by the place of each.
abbrev pub place_value : Text → ℕ
place_value [] = 0
place_value (c ∷ cs) = (c - 48) * 10 ^ length cs + place_value cs

-- The decimal number `whole.frac`, which has a point only if `frac` has a digit.
abbrev pub decimal_text : Text → Text → Text
decimal_text whole [] = whole
decimal_text whole (c ∷ cs) = whole ++ dot ∷ c ∷ cs

pow-suc : (n : ℕ) → 10 ^ suc n ≡ 10 * 10 ^ n
pow-suc n = grind arith

digits_from-place_value :
    (n : ℕ) (s : Text) → AreDigits s → digits_from n s ≡ ok (n * 10 ^ length s + place_value s)
unfolding digits_from
digits_from-place_value n [] h = ap ok (omega arith)
digits_from-place_value n (c ∷ cs) h =
    let digit : is_digit c ≡ true = ground arith in
    let ih = digits_from-place_value (n * 10 + (c - 48)) cs h.1 in
    rw digit (ih ∙ ap ok (rw (pow-suc (length cs)) (omega arith)))

big_int-place_value : (s : Text) → AreDigits s → big_int s ≡ ok (place_value s)
unfolding big_int
big_int-place_value s h = digits_from-place_value 0 s h ∙ ap ok (omega arith)

split-digits : (s : Text) → AreDigits s → split s ≡ s ∷ []
unfolding split
split-digits [] h = refl
split-digits (c ∷ cs) h =
    let digit : (c == dot) ≡ false = ground arith in rw (digit, split-digits cs h.1)

split-point : (s t : Text) → AreDigits s → AreDigits t → split (s ++ dot ∷ t) ≡ s ∷ t ∷ []
unfolding split
split-point [] t h k = rw (split-digits t k)
split-point (c ∷ cs) t h k =
    let digit : (c == dot) ≡ false = ground arith in rw (digit, split-point cs t h.1 k)

module _ (whole frac : Text) (h : AreDigits whole) (k : AreDigits frac) where
  split-whole : whole_part (split (decimal_text whole frac)) ≡ whole
  split-whole = go frac k
    where
      go : (f : Text) → AreDigits f → whole_part (split (decimal_text whole f)) ≡ whole
      go [] d = rw (split-digits whole h)
      go (c ∷ cs) d = rw (split-point whole (c ∷ cs) h d)

  split-frac : frac_part (split (decimal_text whole frac)) ≡ frac
  split-frac = go frac k
    where
      go : (f : Text) → AreDigits f → frac_part (split (decimal_text whole f)) ≡ f
      go [] d = rw (split-digits whole h)
      go (c ∷ cs) d = rw (split-point whole (c ∷ cs) h d)

  scaled-place_value :
      (scale : ℕ) (padded : Text)
      → AreDigits padded
      → scaled scale whole padded ≡ ok (place_value whole * scale + place_value padded)
  unfolding scaled
  scaled-place_value scale padded p =
      rw (big_int-place_value whole h, big_int-place_value padded p, scaled)

zero-IsDigit : IsDigit 48
zero-IsDigit = (omega arith, omega arith)

-- The padded digits after the point.
pad_two : (f : Text) → AreDigits f → AreDigits (take 2 (f ++ codes "00"))
pad_two [] k = (zero-IsDigit, (zero-IsDigit, tt))
pad_two (a ∷ []) k = (k.0, (zero-IsDigit, tt))
pad_two (a ∷ b ∷ f) k = (k.0, (k.1.0, tt))

pad_four : (f : Text) → AreDigits f → AreDigits (take 4 (f ++ codes "0000"))
pad_four [] k = (zero-IsDigit, (zero-IsDigit, (zero-IsDigit, (zero-IsDigit, tt))))
pad_four (a ∷ []) k = (k.0, (zero-IsDigit, (zero-IsDigit, (zero-IsDigit, tt))))
pad_four (a ∷ b ∷ []) k = (k.0, (k.1.0, (zero-IsDigit, (zero-IsDigit, tt))))
pad_four (a ∷ b ∷ c ∷ []) k = (k.0, (k.1.0, (k.1.1.0, (zero-IsDigit, tt))))
pad_four (a ∷ b ∷ c ∷ d ∷ f) k = (k.0, (k.1.0, (k.1.1.0, (k.1.1.1.0, tt))))

-- Four decimals are kept exactly.
padded_value :
    (f : Text)
    → length f ≤ 4
    → place_value (take 4 (f ++ codes "0000")) * 10 ^ length f ≡ place_value f * 10000
padded_value [] h = omega arith
padded_value (a ∷ []) h = omega arith
padded_value (a ∷ b ∷ []) h = omega arith
padded_value (a ∷ b ∷ c ∷ []) h = omega arith
padded_value (a ∷ b ∷ c ∷ d ∷ []) h = omega arith
padded_value (a ∷ b ∷ c ∷ d ∷ e ∷ f) h = absurd (omega arith)

-- Two decimals are kept, and what follows them is cut off.
abbrev IsCut : Text → ℕ → Type 0
IsCut f cents =
    (cents * 10 ^ length f ≤ place_value f * 100)
    × (place_value f * 100 < (cents + 1) * 10 ^ length f)

IsCut-value :
    (f : Text) → AreDigits f → length f ≤ 4 → IsCut f (place_value (take 2 (f ++ codes "00")))
IsCut-value [] k h = omega arith
IsCut-value (a ∷ []) k h = omega arith
IsCut-value (a ∷ b ∷ []) k h = omega arith
IsCut-value (a ∷ b ∷ c ∷ []) k h = omega arith
IsCut-value (a ∷ b ∷ c ∷ d ∷ []) k h = omega arith
IsCut-value (a ∷ b ∷ c ∷ d ∷ e ∷ f) k h = absurd (omega arith)

-- The value of the number without its point, as the value of its parts.
pow-add : (a b : ℕ) → 10 ^ (a + b) ≡ 10 ^ a * 10 ^ b
pow-add zero b = let same : 0 + b ≡ b = omega arith in rw same (omega arith)
pow-add (suc a) b =
    let later : suc a + b ≡ suc (a + b) = omega arith in
    rw (later, pow-suc a, pow-suc (a + b)) (omega (arith, pow-add a b))

place_value-append :
    (s t : Text) → place_value (s ++ t) ≡ place_value s * 10 ^ length t + place_value t
place_value-append [] t = omega arith
place_value-append (c ∷ cs) t =
    rw (length-append cs t, pow-add (length cs) (length t)) (omega (arith, place_value-append cs t))

-- A percentage with up to four decimals is scaled exactly: it is the value of its digits, without
-- the point, over the power of ten of its decimals, times 10000.
pub parse_percent_scaled-IsExact :
    (whole frac : Text)
    → AreDigits whole
    → AreDigits frac
    → length frac ≤ 4
    → (p : ℕ) × (parse_percent_scaled (decimal_text whole frac) ≡ ok p)
      × (p * 10 ^ length frac ≡ place_value (whole ++ frac) * 10000)
unfolding parse_percent_scaled
parse_percent_scaled-IsExact whole frac h k le =
    let value = place_value whole * 10000 + place_value (take 4 (frac ++ codes "0000")) in
    (
      value,
      rw (split-whole whole frac h k, split-frac whole frac h k)
          (scaled-place_value whole frac h k 10000 (take 4 (frac ++ codes "0000"))
            (pad_four frac k)),
      rw (place_value-append whole frac) (omega (arith, padded_value frac le)),
    )

-- An amount with up to four decimals is cut off after the second: what is returned is the greatest
-- number of cents that is not above it.
pub parse_money_to_minor-IsFloor :
    (whole frac : Text)
    → AreDigits whole
    → AreDigits frac
    → length frac ≤ 4
    → (cents : ℕ) × (parse_money_to_minor (decimal_text whole frac) ≡ ok cents)
      × (cents * 10 ^ length frac ≤ place_value (whole ++ frac) * 100)
      × (place_value (whole ++ frac) * 100 < (cents + 1) * 10 ^ length frac)
unfolding parse_money_to_minor
parse_money_to_minor-IsFloor whole frac h k le =
    let (low, high) = IsCut-value frac k le in
    (
      place_value whole * 100 + place_value (take 2 (frac ++ codes "00")),
      rw (split-whole whole frac h k, split-frac whole frac h k)
          (scaled-place_value whole frac h k 100 (take 2 (frac ++ codes "00")) (pad_two frac k)),
      rw (place_value-append whole frac) (omega (arith, low)),
      rw (place_value-append whole frac) (omega (arith, high)),
    )
