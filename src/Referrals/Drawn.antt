-- ===== src/Referrals/Drawn.antt =====
-- Drawing a code (`generateCode` and `createCode` of packages/domain/referrals/src/referral.service.ts).
use alice_uprm.Prelude.{
  ℕ, zero, suc, ◌+◌, ◌%◌, ◌<◌, ◌≡◌, refl, ap, ◌∙◌, ◌⊎◌, inl, inr, Bool, true, false, ◌&&◌, none,
  some, List, [], ◌∷◌, ◌++◌, arith, ltb, ◌==◌, if◌then◌else◌, ==_iff, Bool-cases, length, All,
}
use alice_uprm.Prelude.Text.{Text, text_eq_self}
use alice_uprm.Prelude.Exec.{Error, Result, ok, err, Exec, throw, try_catch-of_ok, try_catch-of_err}
use alice_uprm.Prelude.Rows.{find, any, find-append_none}
use alice_uprm.Referrals.Types.{ReferralCode, Referrals, CreateCodeInput}
use alice_uprm.Referrals.Codes.{
  code_alphabet, letter_at, generate_code, is_code_of, code_row, insert_code, is_unique_violation,
  create_attempts, create_code, resolve_code,
}

abbrev pub IsLetter : ℕ → Type 0
IsLetter c = any (λ d. d == c) code_alphabet ≡ true

letter_at-within :
    (n : ℕ) (cs : Text)
    → n < length cs
    → (c : ℕ) × (letter_at n cs ≡ c ∷ []) × (any (λ d. d == c) cs ≡ true)
unfolding letter_at
letter_at-within n [] h = absurd (omega arith)
letter_at-within zero (c ∷ cs) h = (c, refl, ground arith)
letter_at-within (suc n) (c ∷ cs) h =
    let (d, e, k) = letter_at-within n cs (omega arith) in (d, e, ground (arith, k))

-- A generated code has a letter of the alphabet for each byte.
pub generate_code-IsLetter :
    (bytes : List ℕ)
    → (length (generate_code bytes) ≡ length bytes) × All IsLetter (generate_code bytes)
unfolding generate_code
generate_code-IsLetter [] = (refl, tt)
generate_code-IsLetter (byte ∷ bytes) =
    let (c, e, k) = letter_at-within (byte % length code_alphabet) code_alphabet (omega arith) in
    let (n, letters) = generate_code-IsLetter bytes in rw e (ap suc n, (k, letters))

-- The code of the attempt is there already.
abbrev pub IsTaken : (ℕ → List ℕ) → CreateCodeInput → Referrals → ℕ → Type 0
IsTaken random input s j =
    any (is_code_of input.tenant_id (generate_code (random j))) s.codes ≡ true

-- The call returned the code of the attempt, the first one that was free, and it resolves.
pub record IsCreated (random : ℕ → List ℕ) (input : CreateCodeInput) (s : Referrals) (i : ℕ)
    (c : ReferralCode) (s' : Referrals) : Type 0 where
  pub few : i < 5
  pub first : (j : ℕ) → j < i → IsTaken random input s j
  pub code : c.code ≡ generate_code (random i)
  pub owner : c.tenant_user_id ≡ input.tenant_user_id
  pub fresh : resolve_code input.tenant_id c.code s ≡ none
  pub resolves : resolve_code input.tenant_id c.code s' ≡ some c
  pub edges : s'.edges ≡ s.edges
  pub ancestry : s'.ancestry ≡ s.ancestry
  pub next : s'.next_id ≡ s.next_id + 1

abbrev pub Drawn :
    (ℕ → List ℕ) → CreateCodeInput → Referrals → Result ReferralCode × Referrals → Type 0
Drawn random input s out =
    ((i : ℕ) × (c : ReferralCode) × (out.0 ≡ ok c) × IsCreated random input s i c out.1)
    ⊎ (((j : ℕ) → j < 5 → IsTaken random input s j) × (out ≡ (err Error.unique_violation, s)))

any-find : (p : ReferralCode → Bool) (cs : List ReferralCode) → any p cs ≡ false → find p cs ≡ none
any-find p [] h = refl
any-find p (x ∷ xs) h = ground (arith, any-find p xs)

module _ (random : ℕ → List ℕ) (input : CreateCodeInput) (s : Referrals) where
  abbrev draw : ℕ → Text
  draw i = generate_code (random i)

  insert-free :
      (code : Text)
      → any (is_code_of input.tenant_id code) s.codes ≡ false
      → insert_code input code s ≡ (
        ok (code_row s.next_id input code),
        record s { codes = s.codes ++ code_row s.next_id input code ∷ []; next_id = s.next_id + 1 },
      )
  unfolding insert_code
  insert-free code free = rw free refl

  insert-taken :
      (code : Text)
      → any (is_code_of input.tenant_id code) s.codes ≡ true
      → insert_code input code s ≡ (err Error.unique_violation, s)
  unfolding insert_code
  insert-taken code taken = rw taken refl

  unfoldable again : (left attempt : ℕ) (e : Error) → Exec Referrals ReferralCode
  again left attempt e =
      if is_unique_violation e && ltb attempt 4
      then create_attempts random input left (attempt + 1)
      else throw e

  attempt-free :
      (left attempt : ℕ)
      → any (is_code_of input.tenant_id (draw attempt)) s.codes ≡ false
      → create_attempts random input (suc left) attempt s ≡ (
        ok (code_row s.next_id input (draw attempt)),
        record s {
          codes = s.codes ++ code_row s.next_id input (draw attempt) ∷ [];
          next_id = s.next_id + 1;
        },
      )
  unfolding create_attempts again
  attempt-free left attempt free =
      try_catch-of_ok (insert_code input (draw attempt)) (again left attempt) s _ _
        (insert-free (draw attempt) free)

  attempt-taken :
      (left attempt : ℕ)
      → IsTaken random input s attempt
      → create_attempts random input (suc left) attempt s
        ≡ again left attempt Error.unique_violation s
  unfolding create_attempts again
  attempt-taken left attempt taken =
      try_catch-of_err (insert_code input (draw attempt)) (again left attempt) s _ _
        (insert-taken (draw attempt) taken)

  created :
      (i : ℕ)
      → i < 5
      → ((j : ℕ) → j < i → IsTaken random input s j)
      → any (is_code_of input.tenant_id (draw i)) s.codes ≡ false
      → IsCreated random input s i (code_row s.next_id input (draw i)) (record s {
        codes = s.codes ++ code_row s.next_id input (draw i) ∷ [];
        next_id = s.next_id + 1;
      })
  unfolding code_row resolve_code is_code_of
  created i few first free =
      let absent = any-find (is_code_of input.tenant_id (draw i)) s.codes free in
      record {
        few = few;
        first = first;
        code = refl;
        owner = refl;
        fresh = absent;
        resolves =
            find-append_none _ s.codes _ absent
            ∙ rw ((==_iff input.tenant_id input.tenant_id).1 refl, text_eq_self (draw i)) refl;
        edges = refl;
        ancestry = refl;
        next = refl;
      }

  one_more :
      (attempt : ℕ)
      → ((j : ℕ) → j < attempt → IsTaken random input s j)
      → IsTaken random input s attempt
      → (j : ℕ) → j < attempt + 1
      → IsTaken random input s j
  one_more attempt first taken j h = elim (Bool-cases (j == attempt)) [
    | inl same ↦ let e : j ≡ attempt = (==_iff j attempt).0 same in rw e taken
    | inr other ↦ first j (ground arith)
  ]

  again-last :
      (left attempt : ℕ)
      → ltb attempt 4 ≡ false
      → again left attempt Error.unique_violation s ≡ (err Error.unique_violation, s)
  unfolding again
  again-last left attempt last = rw last refl

  again-next :
      (left attempt : ℕ)
      → ltb attempt 4 ≡ true
      → again left attempt Error.unique_violation s
        ≡ create_attempts random input left (attempt + 1) s
  unfolding again
  again-next left attempt more = rw more refl

  attempts :
      (left attempt : ℕ)
      → attempt + suc left ≡ 5
      → ((j : ℕ) → j < attempt → IsTaken random input s j)
      → Drawn random input s (create_attempts random input (suc left) attempt s)
  attempts zero attempt sum first =
      elim (Bool-cases (any (is_code_of input.tenant_id (draw attempt)) s.codes)) [
        | inr free ↦
            rw (attempt-free zero attempt free)
              (inl (attempt, _, refl, created attempt (omega arith) first free))
        | inl taken ↦
            let all = one_more attempt first taken in
            let last : ltb attempt 4 ≡ false = ground arith in
            inr (
              (λ j h. all j (omega arith)),
              attempt-taken zero attempt taken ∙ again-last zero attempt last,
            )
      ]
  attempts (suc left) attempt sum first =
      elim (Bool-cases (any (is_code_of input.tenant_id (draw attempt)) s.codes)) [
        | inr free ↦
            rw (attempt-free (suc left) attempt free)
              (inl (attempt, _, refl, created attempt (omega arith) first free))
        | inl taken ↦
            let all = one_more attempt first taken in
            let more : ltb attempt 4 ≡ true = ground arith in
            rw (attempt-taken (suc left) attempt taken ∙ again-next (suc left) attempt more)
              (attempts left (attempt + 1) (omega arith) all)
      ]

-- createCode gives the owner a code: the first of five that the tenant does not use, which then
-- resolves to it. When all five are in use, it throws the unique violation and changes nothing, so
-- that CODE_EXHAUSTED is never thrown.
pub create_code-Drawn :
    (random : ℕ → List ℕ) (input : CreateCodeInput) (s : Referrals)
    → Drawn random input s (create_code random input s)
unfolding create_code
create_code-Drawn random input s = attempts random input s 4 0 refl (λ j h. absurd (omega arith))
