-- ===== src/Lib.antt =====
-- NexusHub: an escrow marketplace. A REST API (apps/api, NestJS and Prisma) keeps users, balances and
-- escrows; a worker (apps/worker) takes jobs from two BullMQ queues, drives the escrow contract on
-- Stellar through apps/worker/src/stellar, mirrors its effects in the database, and delivers signed
-- webhooks. The API's services check a request and add a job; the worker's processor calls the chain,
-- writes in one transaction, and adds the webhook jobs that its second processor delivers. The
-- contract (contracts/nexus-escrow, Soroban) holds the tokens of the escrows.
--
-- The files, and the code that each is about:
-- - Prelude: shared tests, lists and the signed integers of the amounts.
-- - Model: packages/shared/src/enums/index.ts and the models of
--   packages/database/prisma/schema.prisma (Enums, Rows), the decimals and what their
--   columns hold (Decimal), and the data of the queues' jobs (Jobs).
-- - Prisma: Client is the interface of Prisma's table operations with the laws that the proofs rely
--   on; World is the state (a table for each model, what was added to the queues, the time); Action
--   is an async call (a result or an exception, and the state it leaves), with `$transaction`,
--   which rolls the database back after a throw, and not the queues; Memory is a client in memory
--   that meets the laws.
-- - Escrow: apps/api/src/escrow/escrow.service.ts. Create is createEscrow; Requests is
--   releaseEscrow, refundEscrow, approveRelease, completeMilestone and claimExpired; Queries is
--   getEscrow, getMilestones, listEscrows and transferAdmin.
-- - Worker: apps/worker/src/processors/escrow.processor.ts. Fund is fundEscrow and
--   handleFundFailure (Failure, Return, Outcome: its runs; Stroops: its
--   amount on the chain), Settle the release, refund and expiry,
--   Sync the approval and the milestone, Notify fireWebhook, Process the choice of the handler;
--   Chain is the interface of StellarService.
-- - Stellar: apps/worker/src/stellar/stellar.service.ts. Service fills the interface of Chain by
--   Invoke (invoke, waitForTransaction; Authorization: who signs what) and Cipher (encryptSecret,
--   decryptSecret) over Sdk; Startup is onModuleInit.
-- - Disputes: apps/api/src/disputes/disputes.service.ts. Notice is its webhook jobs in the processor.
-- - Webhooks: apps/api/src/webhooks/webhooks.service.ts; Delivery: the worker's
--   webhook.processor.ts.
-- - Auth: apps/api/src/auth/auth.service.ts; Balances: apps/api/src/balances/balances.service.ts;
--   Paging: the page arithmetic that the lists share.
-- - Worker/Ledger is the money of a settlement told without tables, and that the transactions of
--   the processor refine it.
-- - Http: apps/api/src/common (guards, decorators, filters), the JWT strategy, the decorators of
--   the DTOs and the three controllers. Guards is both guards and the pipes, Escrow and Auth the
--   routes, Status what a client sees of an exception, Access who reaches which handler, and
--   Escalation what follows from a role that the registration lets anyone choose.
-- - Web: apps/web/src. Session is stores/auth.store.ts, Client lib/api-client.ts, Api
--   services/api.ts against the routes of the API, Queries hooks/use-nexus-queries.ts with the cache
--   of its queries, Text the string helpers of lib/utils.ts.
-- - Contract: contracts/nexus-escrow/src, in Rust. Bytes, Types (types.rs, errors.rs, events.rs), Host
--   (what soroban_sdk gives), Storage (storage.rs) and Admin, Progress, Settlement (the entry points
--   of lib.rs); Calls is any call, and the histories of calls. Lifecycle is the specification: the
--   edges between the states, who signs each, and what it pays. Solvency, History, Payout, Expiry,
--   Fees and Pause are what follows; Interface holds the worker's calls against the entry points;
--   Memory is token contracts that meet the laws.
-- - System: all calls and jobs together. History is any sequence of them; Kept what a later world
--   has not lost; Rules a rule for each way to build an action, by which Safe proves each handler.
-- - Tests: the theorems at concrete inputs, on the client in memory.
--
-- Functions keep the source's names in snake case. A private part of a method (a transaction, a
-- guard, a row that is written) is a definition of its own where a theorem is about it.
--
-- Numbers: a column of amounts is a signed count of millionths of a dollar (Decimal(18, 6)). The
-- amount of a request is any decimal, computed exactly, and rounded where it is stored; a value of
-- createEscrow that does not fit its column throws. The sums of the other calls are not bounded.
-- The worker's product of doubles is that of 53 bits, with 80 doublings, enough for any amount of a
-- column. Times are milliseconds, fixed while a call runs. The source's loops run over lists, and
-- waitForTransaction over its 30 polls.
--
-- Parameters: Prisma, the Stellar SDK (what a transaction carries after invoke has set the signed
-- entries on a copy of its operation is its answer, too), bcrypt, JWT, HMAC, base64, fetch. Laws of
-- a client state what a unique lookup finds after a create, an update or a delete, what `findMany`,
-- `findFirst` and `count` promise, and that a rollback restores the database. Calls are atomic:
-- requests do not interleave, except that Escrow/Create/Interleaving runs the rest of
-- createEscrow's transaction on a balance that was read before another request's ran.
--
-- Parameters of the contract: who has signed a call, the ledger's number, and the token contracts.
-- Their laws: a transfer moves the amount and nothing else, and a contract can send what it has to
-- a holder that takes it. A network that runs the contract answers a call whose arguments do not
-- fit with an error. A call under the contract's own signature is not a step of a history, and a
-- token contract does not call back into the contract during a transfer. An overflow of i128 or u32
-- is a panic, as the build profile has it; a call that fails or panics is undone. The times to live
-- of stored entries are left out: no entry is archived.
--
-- Parameters of the routes: the status and message of a Nest exception, the check of a bearer
-- token, and what class-validator takes for a UUID or an address. A request's numbers have been
-- parsed, and its body has the shape of its DTO; the decorators that restrict values are modelled.
-- In the web client axios and the server are one parameter, and so is the cache of react-query, by
-- its match of keys; the interceptor of responses calls the client again, so a call takes fuel, and
-- two levels are proved to be enough.
--
-- Not modelled: the wiring of modules, logging and rate limits, which are configuration; and the
-- pages, components and forms of the web client and its number and date formats, which are
-- presentation over libraries.
pub mod Prelude
pub mod Model
pub mod Prisma
pub mod Escrow
pub mod Worker
pub mod Paging
pub mod Disputes
pub mod Webhooks
pub mod Delivery
pub mod Auth
pub mod Balances
pub mod Stellar
pub mod Http
pub mod Web
pub mod Contract
pub mod System
mod Tests
