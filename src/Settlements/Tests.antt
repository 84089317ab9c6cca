-- ===== src/Settlements/Tests.antt =====
-- Runs of the settlement service (packages/domain/settlements/src/settlement.service.ts).
use alice_uprm.Prelude.{◌≡◌, refl, true, none, some, [], ◌∷◌, is_some}
use alice_uprm.Prelude.Int.{pos, negsuc, ◌+ℤ◌, neg}
use alice_uprm.Prelude.Text.{codes, text_eq}
use alice_uprm.Prelude.Exec.{Error, err}
use alice_uprm.Prelude.Rows.{find, sum_by}
use alice_uprm.Ledger.Types.{user_balance}
use alice_uprm.Settlements.Cycles.{
  Books, OpenSettlementCycleInput, CloseSettlementCycleInput, owed, liability_accounts, posted_on,
  ledger_liability, is_foreign, row_liability, compute_snapshot, is_open_for, cycle_row, open_cycle,
  close_row, close_cycle,
}
use alice_uprm.Settlements.Liability.{IsCovered, compute_snapshot-covers}
use alice_uprm.Settlements.Single.{HasSingleOpen, Run, Run-HasSingleOpen}

abbrev owing : Books
owing = record {
  tenants = record { id = 7; base_currency = codes "EUR" } ∷ [];
  ledger = record {
    accounts =
        record {
          id = 1;
          tenant_id = 7;
          account_type = user_balance;
          tenant_user_id = some 5;
          currency = codes "EUR";
          is_active = true;
        }
        ∷ [];
    entries = [];
    postings =
        record { entry_id = 2; account_id = 1; amount = negsuc 249; currency = codes "EUR" } ∷ [];
    next_id = 3;
  };
  scheduled =
      record {
        tenant_id = 7;
        is_waiting = true;
        payload_currency = none;
        payload_postings =
            record { account_id = 0; amount = pos 40 }
            ∷ record { account_id = 1; amount = negsuc 39 }
            ∷ [];
      }
      ∷ [];
  cycles = [];
  next_id = 0;
}

abbrev ask : OpenSettlementCycleInput
ask = record {
  tenant_id = 7;
  admin_user_id = none;
  note = none;
  period_start = none;
  period_end = none;
}

abbrev finish : CloseSettlementCycleInput
finish = record { id = 0; admin_user_id = none; note = none }

abbrev begun : Books
begun = (open_cycle (λ t. t) 1000 ask owing).1

owed-total : compute_snapshot 7 (codes "EUR") owing ≡ record {
  ledger_liability_minor = pos 250;
  pending_liability_minor = pos 40;
  total_liability_minor = pos 290;
}
unfolding compute_snapshot liability_accounts ledger_liability posted_on owed row_liability
    is_foreign sum_by text_eq ◌+ℤ◌ neg
owed-total = refl

open-twice : (open_cycle (λ t. t) 2000 ask begun).0 ≡ err Error.cycle_already_open
unfolding open_cycle cycle_row is_open_for text_eq
open-twice = refl

reopened :
    is_some (
      find
        (is_open_for 7 (codes "EUR"))
        (open_cycle (λ t. t) 3000 ask (close_cycle 2000 finish begun).1).1.cycles)
    ≡ true
unfolding open_cycle close_cycle close_row cycle_row is_open_for text_eq
reopened = refl

Run-HasSingleOpen_example :
    HasSingleOpen (open_cycle (λ t. t) 3000 ask (close_cycle 2000 finish begun).1).1.cycles
Run-HasSingleOpen_example =
    Run-HasSingleOpen (λ t. t)
      (Run.opens (Run.closes (Run.opens (Run.start owing refl) 1000 ask) 2000 finish) 3000 ask)

compute_snapshot-covers_example :
    IsCovered 7 (codes "EUR") owing (compute_snapshot 7 (codes "EUR") owing)
compute_snapshot-covers_example = compute_snapshot-covers 7 (codes "EUR") owing
