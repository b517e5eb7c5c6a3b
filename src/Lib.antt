-- ===== src/Lib.antt =====
-- Verification of the Fuse agent control plane.
--
-- Fuse gives software agents a bounded right to spend: a mandate holds a budget, a policy says which
-- calls may be made against it, a ledger reserves and settles the amounts, a circuit breaker stops a
-- branch whose costs run away, and a signer authorizes payments within a fixed total. The program is
-- written in TypeScript; these files model its decision logic, with its money as integers.
--
-- Parts, with the source that each models:
--   Base            text, integers, maps and results as JavaScript has them: a `bigint` is an
--                   integer ℤ, a `number` is an integer or something else (Number), a Map or Record
--                   is an association list in insertion order (Dict), a function that throws
--                   returns a Result.
--   Core.Circuit    src/core/circuit.ts: BranchCircuit; `evaluate` is `evaluate`, its state after a
--                   call under the ceiling `record_cost`, its spike test `is_spike`.
--   Core.Ledger     src/core/ledger.ts: FuseLedger; `reserve` and `reconcile` are split by whether
--                   the request id is known (`repeat_reserve`, `first_reserve`,
--                   `reconcile_by_status`, `first_reconcile`), `reclaim_available` and the rest are
--                   one function each. Books states the invariant, Granting and Closing keep it in
--                   one step, Invariant for every operation, Runs over sequences of calls.
--   Core.Pricing    src/core/pricing.ts: the price of tokens, rounded up; `usdToMicros` is in Usd.
--   Core.Service    src/core/service.ts: `prepareCompletion` is `begin_completion` up to the
--                   provider's call and `finish_completion` after it, since other calls may come in
--                   between; `releasePaidCompletion` is `release_paid_completion`, in Release.
--                   Accounts follows one request through the ledger, Replays is a payment
--                   reported twice.
--   Domain.Lifecycles        src/domain/lifecycles.ts: the generic lifecycle and the tables of
--                   requests, payments and mandates. History, Routes and Guarantees are about the
--                   events that any attempts leave.
--   Domain.Policy   src/domain/policy.ts: validatePolicy and validateEvaluation are in Validate,
--                   evaluatePolicy in Evaluate, cut into the lists of reasons that it pushes
--                   (`mandate_reasons`, `limit_reasons`, `workload_reasons`) and the decision on
--                   them (`decide_outcome`).
--   Domain.FinancialLedger   src/domain/financialLedger.ts: the three loops of `append` are
--                   `add_totals`, `check_balanced` and `post_all`.
--   Product.OnboardingState  src/product/onboardingState.ts: the table and the two functions.
--   Anomaly.SiblingDivergence  src/anomaly/siblingDivergence.ts: `evaluate_sibling_divergence` and
--                   its arithmetic.
--   Signer.AuthorizationStore  src/signer/authorizationStore.ts: the two tables are the state Store,
--                   each method the effect of its transaction.
--   Persistence.PolicyStore  src/persistence/policyStore.ts: the tables are the state Store, and an
--                   operation the effect of its transaction. Tables has the helpers that operations
--                   share, Counters the sums over executions and branches, Admission and Replay
--                   `admitInference`, `previewInference` and `admissionFromExecution`, Executions
--                   how an execution completes, is held or fails, Reconciliation
--                   `resolveReconciliation`, Listing `listReconciliationCases`, Mandates and
--                   MandateBranches the administration, Decisions `evaluateAndRecord`. Runs has the
--                   sequences of calls. The other children are proofs: Rows to Lifetime what
--                   executions count against a mandate, Gate to Cases the holds of mandates with
--                   open cases, Replays a request sent again and previewed, Settled, Shutting and
--                   Closed rows that stay, Closing the end of a case, Delegation branches under
--                   branches.
--   Inference.InferenceExecution  src/inference/inferenceExecution.ts: `execute` is
--                   `begin_execution` up to the provider's call and `settle_execution` after it,
--                   with what came of the call as an argument.
--   Administration.PolicyAdministration  src/policy/policyAdministration.ts: each method is its
--                   guards and then the call that it makes of the policy store.
--   Tests           runs at concrete inputs.
--
-- How they interact: the service holds a ledger and a circuit for each child, and prices with
-- Core.Pricing what it reserves and settles; the policy evaluation decides before either is touched;
-- the lifecycles record what became of a request, its payment and its mandate; the journal records
-- money moved; the signer's totals bound what is signed whatever the ledger says. Inference
-- execution prices a request with Core.Pricing and has it admitted, completed, held or failed by the
-- policy store, which decides by Domain.Policy over its
-- own sums and keeps a mandate's state along Domain.Lifecycles. Policy administration uses the
-- policy's record and the mandate's states.
--
-- Conventions. A call that throws leaves the state as it was, which is what the code does: it tests
-- before it writes, or rolls back; the service is the exception, and returns the state it leaves.
-- `Date.parse` and the clock are parameters; `Date.parse` gives `none` for NaN, and a comparison
-- with `none` is false as one with NaN is. No model needs fuel: every loop is over a list or a text.
-- No number wraps around, since the code counts money in `bigint`; where it caps a ratio at the
-- largest safe integer, the model does.
--
-- Of the policy store, not modelled: the pages of settlements and decisions and two yes-or-no
-- reads, which only read rows; audit rows, hooks that callers run inside a transaction, the
-- bookkeeping of shadow evaluations and the set-up of the schema. Of inference execution, not
-- modelled: the path of reliability protocols. Hashes and random ids are parameters.
-- Sequences of calls are of the policy store's own calls: the reliability protocols, which write to
-- the same tables, are not among them.
--
-- Not modelled: HTTP, HTML, database set-up and connections, provider clients, the external wallet
-- service, evidence and experiment files, command-line scripts, the Solidity contract. The ratio of
-- two costs in a circuit's result is kept as the pair of integers that the code divides as floats,
-- and a receipt's amounts as integers that the code writes as decimal text.
pub mod Base
pub mod Core
pub mod Domain
pub mod Inference
pub mod Persistence
pub mod Product
pub mod Anomaly
pub mod Signer
pub mod Administration
pub mod Tests
