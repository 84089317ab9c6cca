-- ===== src/Lib.antt =====
-- Verification of AliceUPRM, the multi-tenant rewards platform.
--
-- Events of a tenant's customers make rewards, which are booked in a double-entry ledger and granted as
-- credits in the wallet of the user, where purchases and payouts take them again. Each domain service is
-- a class over the database; here each is a module, with the tables it uses as a state and each method
-- as a function on that state.
--
--   Ledger   packages/domain/ledger: accounts (account.service.ts), the posting of entries
--            (posting.service.ts), balances (balance.service.ts). Types has the tables, Accounts, Posting
--            and Balance the methods; Sums, Outcome, Booked, Retry, Isolation, Ensuring, Provision and Run have the
--            proofs.
--   Wallet   packages/domain/wallet: grants, accounts and balances (Grants), the FIFO allocation
--            (Allocation), redemptions (Redemption), payout reservations (Payout). Types has the tables;
--            Fifo, Coverage, Spending, Loops, Backing, Conservation, Holding, Releasing, Sending, Solvency
--            and Run have the proofs.
--   Rewards  packages/domain/rewards/src/reward.service.ts and config.ts: the parsing of tier values
--            (Decimal), the computation of rewards (Compute). Tiers says what a tier
--            gives; Decimals, Percent, Order, Earned and Outcome have the proofs.
--   Payouts  packages/domain/payouts/src/payout.service.ts: Requests has the methods, which call the
--            services of the ledger and the wallet on their part of the tables; Calls and Transitions have
--            the proofs.
--   Settlements  packages/domain/settlements/src/settlement.service.ts: Cycles has the methods; Liability
--            and Single have the proofs.
--   Outbox   packages/domain/outbox/src/relay.service.ts: Relay has the batch, Queue,
--            Settling and Refinement the proofs.
--   Fraud    packages/domain/fraud/src: Config has the defaults and scales, Views the reading of cases,
--            Cases the decisions, Signals the scores and the opening of cases; Fitting, Opening, Decisions, Holding,
--            Rejections, Kept and Run have the proofs.
--   Referrals  packages/domain/referrals/src/referral.service.ts: Codes, Edges and Chain have the methods;
--            Consistent, Attach, Applied, Outcome, Drawn, Levels and Run have the proofs.
--   Webhooks  packages/domain/webhooks/src and apps/worker/src/webhooks/webhook-dispatcher.ts: Types has the
--            tables, Config the reading of a tenant's endpoints, Delivery the queue, Dispatcher the rounds of
--            requests; Claims, Retry, Attempts, Batch, Rounds, Bounded, Settings and Replays have the proofs.
--   Prelude  what they share: tests on numbers and texts, signed integers, lists of rows, rows with an
--            id, sorted queries, and service methods that may throw (Exec).
--
-- How the code is translated:
-- - A table is the list of its rows in the order of their insertion. An id (a UUID) is a number, drawn
--   from a counter of the tables; a column that may be null is an Option. A bigint is a signed integer
--   without bound. A text is the list of its UTF-16 code units. A date is its number of milliseconds.
-- - A method that may throw returns a Result beside the tables, since what it wrote before a throw stays
--   written unless a transaction rolls it back. A unique index is a test at the insertion.
-- - Other clients of the database are explicit where the code handles their races: postEntry takes what
--   they commit between its reads and its insertion as a function on the tables, and claimDueBatch what
--   other workers do before each of its updates; the relay's query skips the rows that others lock.
--   Elsewhere a method runs without other writes to its tables.
-- - The loops go over lists, so the functions are structurally recursive. Two loops count: createCode
--   makes at most five attempts, and getEffectiveReferralChain takes at most as many steps as depths are
--   left; the count is the argument of the recursion, and no result depends on more.
--
-- Not modelled: HTTP controllers and the user interface, the libraries (Prisma, zod, Stripe, Kafka), the
-- logging; the loops that call a batch for ever (startLoop); the domain services that have no module here; read-only listings such as
-- BalanceService.getTenantBalances; PayoutService.releaseBackToUser, which nothing calls; the check that
-- an amount is a bigint, which it is by its type.
pub mod Prelude
pub mod Ledger
pub mod Wallet
pub mod Rewards
pub mod Payouts
pub mod Settlements
pub mod Outbox
pub mod Fraud
pub mod Referrals
pub mod Webhooks
