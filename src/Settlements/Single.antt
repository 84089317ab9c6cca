-- ===== src/Settlements/Single.antt =====
-- A tenant has at most one open settlement cycle in a currency
-- (packages/domain/settlements/src/settlement.service.ts).
use alice_uprm.Prelude.{
  ℕ, ◌≡◌, refl, inl, inr, Bool, true, false, none, List, [], ◌∷◌, ◌++◌, arith, Bool-cases,
  Option-cases, All, All-append,
}
use alice_uprm.Prelude.Text.{text_eq, text_eq→eq, text_eq_self}
use alice_uprm.Prelude.Rows.{find, update_where}
use alice_uprm.Prelude.Keyed.{by_id}
use alice_uprm.Settlements.Cycles.{
  SettlementCycle, Books, OpenSettlementCycleInput, CloseSettlementCycleInput, compute_snapshot,
  is_open, is_open_for, cycle_row, open_cycle, close_row, close_cycle,
}

-- Not two open cycles of one tenant and currency.
abbrev pub Excludes : SettlementCycle → SettlementCycle → Type 0
Excludes c d = is_open c.status ≡ true → is_open_for c.tenant_id c.currency d ≡ false

abbrev pub HasSingleOpen : List SettlementCycle → Type 0
HasSingleOpen [] = Unit
HasSingleOpen (c ∷ cs) = All (Excludes c) cs × HasSingleOpen cs

same_key :
    (c d : SettlementCycle)
    → is_open_for d.tenant_id d.currency c ≡ false
    → is_open d.status ≡ true
    → Excludes c d
unfolding is_open_for
same_key c d none_open new_open old_open =
    elim (Bool-cases (is_open_for c.tenant_id c.currency d)) [
      | inr apart ↦ apart
      | inl together ↦
          let tenants : d.tenant_id ≡ c.tenant_id = ground arith in
          let texts : text_eq d.currency c.currency ≡ true = ground arith in
          let currencies : d.currency ≡ c.currency = text_eq→eq d.currency c.currency texts in
          let back : text_eq c.currency d.currency ≡ true =
            rw currencies (text_eq_self c.currency) in
          absurd (ground arith)
    ]

HasSingleOpen-append :
    (d : SettlementCycle) (cs : List SettlementCycle)
    → is_open d.status ≡ true
    → find (is_open_for d.tenant_id d.currency) cs ≡ none
    → HasSingleOpen cs
    → HasSingleOpen (cs ++ d ∷ [])
HasSingleOpen-append d [] new_open absent h = (tt, tt)
HasSingleOpen-append d (c ∷ cs) new_open absent h =
    elim (Bool-cases (is_open_for d.tenant_id d.currency c)) [
      | inl taken ↦ absurd (cc (rw taken at absent))
      | inr free ↦ (
        All-append (Excludes c) cs (d ∷ []) h.0 (same_key c d free new_open, tt),
        HasSingleOpen-append d cs new_open (rw free at absent) h.1,
      )
    ]

-- Closing cycles.
module _ (f : SettlementCycle → SettlementCycle) (p : SettlementCycle → Bool)
    (closes : (c : SettlementCycle) → is_open (f c).status ≡ false) where
  Excludes-update :
      (c : SettlementCycle) (cs : List SettlementCycle)
      → All (Excludes c) cs
      → All (Excludes c) (update_where p f cs)
  unfolding is_open_for
  Excludes-update c [] h = tt
  Excludes-update c (d ∷ ds) h = (
    elim (Bool-cases (p d)) [
      | inl hit ↦ rw hit (λ e. ground (arith, closes d))
      | inr miss ↦ rw miss h.0
    ],
    Excludes-update c ds h.1,
  )

  Excludes-closed : (c : SettlementCycle) (cs : List SettlementCycle) → All (Excludes (f c)) cs
  Excludes-closed c [] = tt
  Excludes-closed c (d ∷ ds) = ((λ e. absurd (ground (arith, closes c))), Excludes-closed c ds)

  HasSingleOpen-update :
      (cs : List SettlementCycle) → HasSingleOpen cs → HasSingleOpen (update_where p f cs)
  HasSingleOpen-update [] h = tt
  HasSingleOpen-update (c ∷ cs) h = elim (Bool-cases (p c)) [
    | inl hit ↦ rw hit (Excludes-closed c (update_where p f cs), HasSingleOpen-update cs h.1)
    | inr miss ↦ rw miss (Excludes-update c cs h.0, HasSingleOpen-update cs h.1)
  ]

open_cycle-HasSingleOpen :
    (start_of_month : ℕ → ℕ) (now : ℕ) (input : OpenSettlementCycleInput) (s : Books)
    → HasSingleOpen s.cycles
    → HasSingleOpen (open_cycle start_of_month now input s).1.cycles
unfolding open_cycle cycle_row
open_cycle-HasSingleOpen start_of_month now input s h =
    elim (Option-cases (by_id (λ t. t.id) input.tenant_id s.tenants)) [
      | inl absent ↦ rw (absent, open_cycle) h
      | inr (t, found) ↦
          elim (Option-cases (find (is_open_for input.tenant_id t.base_currency) s.cycles)) [
            | inr (c, taken) ↦ rw (found, taken, open_cycle) h
            | inl free ↦
                rw (found, free, open_cycle)
                  (HasSingleOpen-append
                    (cycle_row start_of_month now s.next_id input t.base_currency
                      (compute_snapshot input.tenant_id t.base_currency s))
                    s.cycles refl free h)
          ]
    ]

close_cycle-HasSingleOpen :
    (now : ℕ) (input : CloseSettlementCycleInput) (s : Books)
    → HasSingleOpen s.cycles
    → HasSingleOpen (close_cycle now input s).1.cycles
unfolding close_cycle close_row
close_cycle-HasSingleOpen now input s h =
    elim (Option-cases (by_id (λ c. c.id) input.id s.cycles)) [
      | inl absent ↦ rw (absent, close_cycle) h
      | inr (c, found) ↦ elim (Bool-cases (is_open c.status)) [
        | inr shut ↦ rw (found, shut, close_cycle) h
        | inl still ↦
            rw (found, still, close_cycle)
              (HasSingleOpen-update
                (close_row now input (compute_snapshot c.tenant_id c.currency s)) _ (λ d. refl)
                s.cycles h)
      ]
    ]

-- The calls of the service, with any change of the other tables between them.
pub data Run (start_of_month : ℕ → ℕ) : Books → Type 0 where
  start : (s : Books) → s.cycles ≡ [] → Run start_of_month s
  elsewhere :
      {s : Books}
      → Run start_of_month s
      → (s' : Books) → s'.cycles ≡ s.cycles
      → Run start_of_month s'
  opens :
      {s : Books}
      → Run start_of_month s
      → (now : ℕ) (input : OpenSettlementCycleInput)
      → Run start_of_month (open_cycle start_of_month now input s).1
  closes :
      {s : Books}
      → Run start_of_month s
      → (now : ℕ) (input : CloseSettlementCycleInput)
      → Run start_of_month (close_cycle now input s).1

-- However cycles are opened and closed, one call after the other and with any changes of the other
-- tables between them, a tenant never has two open cycles in one currency.
pub Run-HasSingleOpen :
    (start_of_month : ℕ → ℕ) {s : Books} → Run start_of_month s → HasSingleOpen s.cycles
Run-HasSingleOpen month (Run.start s empty) = rw empty tt
Run-HasSingleOpen month (Run.elsewhere {s} r s' same) = rw same (Run-HasSingleOpen month r)
Run-HasSingleOpen month (Run.opens {s} r now input) =
    open_cycle-HasSingleOpen month now input s (Run-HasSingleOpen month r)
Run-HasSingleOpen month (Run.closes {s} r now input) =
    close_cycle-HasSingleOpen now input s (Run-HasSingleOpen month r)
