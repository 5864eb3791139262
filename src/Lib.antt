-- ===== src/Lib.antt =====
-- OverSync: the coordinator's order book, the relayer's submissions, refunds and partial fills, the
-- client SDK's rules and the resolver's planner.
--
-- OverSync swaps assets between Ethereum and Stellar with hash time-locked contracts. The contracts
-- hold the funds; the coordinator keeps an order book of the swaps, which chain listeners, HTTP routes
-- and resolvers move forward; the resolver plans the fills, and the relayer sends transactions. What is modelled is the TypeScript
-- that decides: which step an order may take, which secret, quote or plan is accepted, and how an
-- amount is converted.
--
-- Files, by the code that they model (paths from the repository's root):
--
-- - Prelude, Decimal: JavaScript strings as lists of code units, their decimal notation, tests on
--   numbers, `bigint` as ℤ. Helpers of the other modules.
-- - Status, Machine: coordinator/src/state-machine/order-machine.ts. The tables are folded from the
--   edges as the code folds them. Machine/Table is about the tables, Machine/Classify about the codes
--   of refusals and Machine/Reach about whole lifecycles.
-- - Timelock: coordinator/src/utils/timelock-validator.ts; Timelock/Safety.
-- - Order, Errors, Store: coordinator/src/persistence/orders-repo.ts as a state of lists of rows, the
--   errors that the services throw as one data type, and the monad of operations that throw and
--   change the store; what was written before a throw stays written.
-- - Service: coordinator/src/services/order-service.ts, `advance` with every method that calls it.
--   Service/Steps says what `advance` does to the table for any request; Service/Commands gathers the
--   methods in one data type of commands; Service/Moves, Service/Invariants, Service/Refusals and
--   Service/Repeats are about any sequence of them. Announce is `announce`, over the database and the
--   quote service; Announce/Accepted.
-- - Secrets: coordinator/src/services/secret-service.ts with the format test and the hashed message
--   of packages/sdk/src/secrets/index.ts; Secrets/Gate, Secrets/Encoding.
-- - ListenerEvents: coordinator/src/listeners/order-events.ts. ChainEvents:
--   coordinator/src/services/chain-events.ts; ChainEvents/Frame is what no service does to the events
--   that were processed. Both call the services above.
-- - Quotes: coordinator/src/services/quote-service.ts; Quotes/Amount, Quotes/Freshness.
-- - Sdk: packages/sdk/src/state-machine and packages/sdk/src/amounts.
-- - Planner: resolver/src/planner. Planner/Drift is validate.ts and `buildOrderPlan`, Planner/Fill is
--   `buildPlan`.
-- - Relay: relayer/src/relay-submission-tracker.ts. Relay/Records and Relay/Keys are its types and keys,
--   Relay/Tracker its state with the methods that do not wait, Relay/Submit, Relay/Drive and
--   Relay/Restore `submit`, `broadcastOnce`, `reconcile` and `restore`, cut at their awaits;
--   Relay/Steps is the relation of what may happen between two awaits. Relay/Invariant is the
--   invariant, with a child for each group of steps, Relay/Durable what a store holds that keeps
--   each snapshot whole, and Relay/Prune what relayer/src/relay-submission-store.ts leaves out of one.
--   Relay/Safety (with Restarts and Forgets), Relay/Settled, Relay/Polling and Relay/Stats are about
--   orders, restarts and polls.
--   A step may forget any record and a restart find any snapshot that was kept; what is asked of them
--   is a premise, `IsCareful` or `IsOrderly` of Relay/Steps: the program itself does not see to it,
--   since `persist` passes over a save that fails, a store is optional and may prune, and `forget` lets
--   a record in flight go.
-- - Fills: relayer/src/merkle-tree.ts (Fills/Merkle, with Fills/Merkle/Proofs) and
--   relayer/src/partial-fills.ts (Fills/Manager, with Fills/Manager/Pending). The tree holds the hashes
--   of the secrets; a manager keeps its three Maps as association lists.
-- - Watchdog: relayer/src/refund-watchdog.ts, a turn of a scan on the state of Relay's tracker, and
--   the turns of scans that overlap; Watchdog/Refunds. OrderPoll: relayer/src/order-poll-utils.ts; OrderPoll/Expiry.
-- - Examples: concrete inputs at which the theorems apply.
--
-- Conventions. Times, positions and ids are natural numbers. A clock is an argument, or a field of
-- the store for the database's clock. A column that may be NULL and an optional property are an
-- `Option`. A look-up in a table is a search of a list of rows in the order of insertion. A method of
-- the coordinator is taken to run to its end before the next one starts: an interleaving of two calls
-- between the look-up of one and its write is not modelled. The relayer's tracker is modelled with its
-- interleavings: any operations may stand at their awaits, and any of them may go on. Two
-- loops run on fuel: `drive` of Relay/Polling, on the attempts that are left, and `climb` of
-- Fills/Merkle, on the number of leaves, as each turn makes its list shorter. Every other loop is over a
-- list, a string or the digits of a number.
--
-- Parameters: `sha256` is viem's hash of a sequence of bytes, about which nothing is assumed; the
-- resolver registry is a function that answers for an address; what CoinGecko answers, the random
-- quote ids and the public ids are arguments. `keccak256` of ethers and `Date.parse`
-- are parameters. Of the tracker: the eight digits of SHA-256, the store's answer to a save, and
-- what stagers, broadcasts and confirmers answer. `track`, which `submit` calls, is missing in the file:
-- a step of `submit` is told whether an operation of the key is registered, and has the premise that it is told so while one runs. An `onEvent` hook is taken not to throw.
--
-- Not modelled: the contracts (contracts/, soroban/), the relayer's other parts, the frontend, the
-- HTTP server, the RPC clients and listeners' polling, scripts and logging. Of the partial fills: the
-- progress reports, recommendations, prices and gas. The watchdog takes the answer of `submit` as it
-- comes; other code than its own turns is taken not to change an order meanwhile.
pub mod Prelude
pub mod Decimal
pub mod Status
pub mod Machine
pub mod Timelock
pub mod Sdk
pub mod Order
pub mod Errors
pub mod Store
pub mod Service
pub mod Quotes
pub mod Planner
pub mod Announce
pub mod Secrets
pub mod ListenerEvents
pub mod ChainEvents
pub mod Fills
pub mod Watchdog
pub mod OrderPoll
pub mod Examples
pub mod Relay
