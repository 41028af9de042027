-- ===== src/Lib.antt =====
-- Verification of breakroom: the fake services that agents are tested against, the judgement of an
-- agent, and the accounts, billing and invitations of the team service.
--
-- The program runs a customer-support agent against a simulated payment and ticket service, injects
-- faults, and judges the agent by independent assertions on the recorded state. The payment and
-- ticket services are packages/breakroom-core/src/breakroom/simulator.py; the types that adapters
-- see are models.py beside it. Teams import the reports into a service (apps/api/breakroom_api) with
-- password accounts, test-mode billing and invitations; it keeps its state in PostgreSQL.
--
-- Files:
-- * Base and its children: library names passed on, Boolean tests, lists, signed integers, Python's
--   `:06d` format (Base/Decimal) and casefold, strip and substring tests (Base/Fold).
-- * Simulator/Rows, Calls, State: the rows of each SQLite table, the calls of class SupportTools with
--   their answers, the event log, the case, and the database as a record of its tables (`Db`).
-- * Simulator/Answer, Monad: queries that may raise; methods that read and write the database and
--   may raise (`Tx`). `transaction` is BEGIN IMMEDIATE with COMMIT or ROLLBACK.
-- * Simulator/Queries, Log, Clock, Refund, Ticket, Operation, Dispatch, Initialize: the methods of
--   class Simulator, one definition for each, composed as the source composes them.
-- * The module Simulator/Context has `AgentContext.sleep` of models.py beside it.
-- * Simulator/Effects, Ensures: rules for what an action does to the database.
-- * Simulator/Evolution and its children: the relation that every method keeps (Clock: time and
--   notifications; Inserts, Payments: refunds; Tickets; Calls; Dispatch).
-- * Simulator/Safety and its children: runs from a fresh database, retries of refunds and of
--   ticket writes, and the budget of calls.
-- * Ledger and its children: the abstract payment machine that the simulator refines, and its
--   invariant.
-- * Evaluator/Fields, Claims, Record, Checks, Snapshot: the evaluator of a trial
--   (packages/breakroom-core/src/breakroom/evaluator.py): an agent's claims against the recorded
--   state and responses, and `evaluate` with its checks and its verdict.
-- * Evaluator/Quiet, Verdict, Evidence: what the verdict and the check of the claims mean.
-- * Evaluator/Opened, Tests: verdicts on concrete trials.
-- * Coverage/Observation, Summary, Matrix: the matrix of negative controls and its gate
--   (packages/breakroom-core/src/breakroom/coverage.py). The runner, the validation of a report
--   (reports.py) and the hash of a manifest are parameters.
-- * Coverage/Gate, Denominator, Planned, Detection, Tests: what a gate of zero means, which cells a
--   matrix has, which controls a plan runs, and a small matrix.
-- * Simulator/Fixture, Opened, Tests: runs on a concrete case.
-- * Control/Rows, Monad: the tables of the service's database as a record (`Store`), and handlers that
--   read and write it and may raise (`Act`). `transaction` is `engine.begin()`.
-- * Control/Effects, Answers: rules for what a handler does to the database, and for what its answer
--   says of its parts.
-- * The modules Request, Limits, Tokens, Sessions, Handlers and Passwords of Control/Accounts: accounts
--   (apps/api/breakroom_api/password_db.py and password_auth.py), and the session of a request
--   (team_auth.py, team_db.py). `AuthCall` holds the clock, the random texts, SHA-256, Argon2id and
--   the mailer of one call; a handler's argument has passed the validation of its body.
-- * The modules Credentials, Budgets, Resets and SignIns of Control/Accounts: what a token, a reset
--   and a sign-in mean. Passes, Windows and Allowed beside them: what one pass over a bucket, one call
--   and a sequence of calls do to the budget of an account; Tests has a concrete account.
-- * The modules Invitations and Readiness of Control/Workspace: invitations, and what reports say of a
--   suite (apps/api/breakroom_api/team_workspace.py); Joining, Acceptance, Evidence and Tests beside
--   them.
-- * The modules Provider, Account, Operation, Snapshot, Handlers, Inbox, Worker and Lifecycle of
--   Control/Billing: class BillingService (apps/api/breakroom_api/team_billing.py), one definition for
--   each method and for each transaction of a method. `BillingCall` holds the clock, the random
--   identifier, SHA-256 and the provider's answers of one call.
-- * The modules Paid, Granted, Kept, Runs, Attempts and Repeats of Control/Billing: where paid periods
--   come from, what every handler keeps (Kept/Events: the rows of webhook events), runs of the
--   handlers, how often the worker claims an event, and requests that come again; the module Tests has
--   concrete requests.
--
-- Modelling: virtual seconds are naturals (the source has floats and every shipped case uses whole
-- seconds); amounts are Python integers, which do not overflow; texts are native strings; a JSON
-- column holds the value that it encodes; error messages are left out. The uniqueness, check and
-- foreign key constraints of SQLite that an insert can break are tested where the insert is
-- modelled, and raise `integrity_error`. Threads share only the database, so a concurrent run is a
-- sequence of transactions. The barrier at the first refund call is test-only synchronisation: a
-- session says whether its call stops there. The wall clock and the cancellation signal are fields
-- of `Context`. casefold is modelled for ASCII letters. The search for a free refund identifier has
-- one round more than there are refunds for fuel, since each refund occupies one identifier. The
-- evaluator reads the scalar fields of responses and claims (a claim that has passed the adapter's
-- validation has no other), and its messages are left out.
--
-- In the control plane, times are whole seconds, ORDER BY with LIMIT 1 is `latest` and `earliest`,
-- a row lock is the order of the transactions, and an advisory lock has no definition. The payment
-- provider's client, SHA-256 and the caller's authorization are parameters. The uniqueness constraints
-- of PostgreSQL have no definition: random identifiers are taken to be new, and a customer of the
-- provider to belong to one project. The aggregate mail status is left out.
--
-- Not modelled: processes and pipes, HTML and JSON rendering, the web application, and of the
-- service's control plane what is outside these modules:
-- OIDC sign-in, projects, members, API keys and reports, and the sandbox.
mod Base
pub mod Simulator
pub mod Ledger
pub mod Evaluator
pub mod Coverage
pub mod Control
