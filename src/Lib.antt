-- ===== src/Lib.antt =====
-- Verification of the parts of the jehad-os control plane that decide what reaches a model, what a
-- message says, what wakes and completes an outcome, and what a verb may change.
--
-- The parts and their files:
-- * Egress (packages/core/src/egress/policy.ts): the rule registry, the most specific match, the
--   decision and the gate before a provider. `Egress` has the definitions; `Egress/Matching` is
--   about `match`, `Egress/Decision` about `check`, `Egress/Gate` about `assertEgress` and
--   `egressGatedModelProvider`. The database's lookup of a domain's storage mode and the wrapped
--   provider are arguments.
-- * Decoder (apps/imessage-sensor/src/decoder): `typedstream.ts` in `Decoder/Stream` (its data),
--   `Method` (state and errors), `Integers`, `Descriptor`, `Tables` (shared strings and classes),
--   `Objects` and `Archive`; `index.ts` in `Decoder/Body`. A method is a function of the parser's
--   state; `Decoder/Ensures` and `Decoder/Method/Runs` have the rules for postconditions. Bytes and
--   code units are numbers, a float is kept as its bytes, and TextDecoder is a parameter.
-- * Outcomes (packages/core/src/outcomes): the wait predicates of `predicates.ts` in
--   `Outcomes/Predicates`; of `service.ts`, `setCriterionStatus` in `Outcomes/Criteria`, and
--   `createOutcomeWait` and `satisfyWaitsForEvent` in `Outcomes/Waits`.
-- * Events (packages/core/src/events/store.ts): `acceptEvent` on the tables `domains`, `events` and
--   `outbox`.
-- * Assignments (packages/core/src/assignments/verdict.ts): the verifier's envelope, and in
--   `Assignments/Applying` its application, which calls `Outcomes/Criteria`, which calls `Events`.
-- * Commitments (packages/core/src/commitments/transitions.ts): the reference codes, the resolution
--   of a verb's target, its reply, and in `Commitments/Eligibility` the relation to a thread's labels.
-- * Attention (packages/core/src/attention): the types, the table and its statements in `Attention`;
--   of `salience.ts`, `decideDelivery` in `Attention/Salience`; of `service.ts`, what
--   `openOrBumpOrReopen` compares and writes in `Attention/Occurrences` and itself in
--   `Attention/Writes`, the owner's actions in `Attention/Owner` and `Attention/Reopening`,
--   `resolveAttentionBySource` in `Attention/Closing`, `listOpenAttention` in `Attention/Listing`, and
--   `livenessSweep` with the registry of `resolvers.ts` in `Attention/Sweep`. `Attention/Machine` has
--   the edits of a row and the statements, `Attention/Effects` which of them each operation runs, and
--   `Attention/Calls` the operations in any order; `Attention/Writes/Asked` says of the columns what an
--   occurrence is to make of an item. Of `delivery.ts`, the two stamps are in `Attention/Delivery`. What
--   other transactions do is an argument: around the calls, before the inserts and the second read of
--   `openOrBumpOrReopen`, before the update of `reopenAttentionByOwner` and before each statement of
--   `livenessSweep` but the first. No statement on the items follows another in the other operations,
--   but for a read that only answers. The events go to `Events`.
-- * Model (packages/core/src/model): `monthlyModelSpendUsd` of `budget.ts` and the reservation of
--   `call-model.ts` in `Model`, `runModelCall` in `Model/Dispatch`, which asks `Egress` on each attempt.
--   `Model/Ledger` and `Model/Race` are about calls that overlap, `Model/Calls` about one call.
-- `Prelude` has what they share: Boolean tests, lists, results (`Prelude/Results`: a function that
-- throws returns `err`), the integers, and in `Prelude/Unknown` JavaScript's untyped values, with
-- the operations of its strings. `Tests` runs the definitions.
--
-- Bounds and fuel. The object reader gets `max_depth + 1` rounds, one more than the limit on
-- nesting admits; the loops over groups and over a chain of classes get one round more than the
-- blob has bytes, and each round reads a byte. A descriptor is parsed in as many rounds as its text
-- has units, and one of its groups in twice the units that are left. The error `stuck` stands for
-- too few rounds and is no error of the source. `decimal` gets one round more than its number,
-- which has fewer digits. The sweep's loop of deletes runs for as many rounds as it is
-- given, of which one more than there are rows is enough where nobody else writes; a sweep that has
-- not ended in its rounds counts as a call that has not returned (`still_running`, no error of the
-- source). A model call has at most three attempts.
--
-- The hash of node:crypto, the ids that are minted, the clock's text, the owner's local hour, the
-- month's start, the rounding of floats and the Unicode tables of `toUpperCase` and `toLowerCase` are
-- parameters. A statement of the database runs whole, so that the race that
-- `acceptEvent` recovers from by a second read cannot occur. Queries do not fail by themselves, but for
-- the gate's query for a domain within a model call; of the constraints of the tables, the primary key,
-- the unique key and the principal of an attention item, the outcome of a wait and the id of a model
-- call are checked. What a call that throws
-- leaves in the database is not kept, but for the ledger of model calls. Money is counted in whole
-- micro-dollars. Texts have no unpaired surrogates.
--
-- Not modelled: the messages of errors and the contents of audit entries beyond their action; the
-- rest of the outcome service and of the assignment service; the queue of notifications with its
-- retry, and the producer of outcome items; the budget's configuration; the verb grammar, the query
-- and the transition of commitments; the other components of packages/core, which work on rows of SQL;
-- the adapters, the database package, the workflow engine and the applications, which are
-- input and output.
pub mod Prelude
pub mod Egress
pub mod Decoder
pub mod Events
pub mod Commitments
pub mod Outcomes
pub mod Assignments
pub mod Attention
pub mod Model
mod Tests
