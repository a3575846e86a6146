-- ===== src/Lib.antt =====
-- A verification library of the V3 keepers (keepers/v3): the Node.js processes that run the reward rounds, the
-- price pushes, the payouts, the fee ingress, the refunds and the watches of the protocol. Each keeper reads the
-- chain, decides by pure functions, and sends what it decided through one journaled sender.
--
-- The parts, and the files that model them:
--   Journal, Tx          lib/journal.mjs and lib/tx.mjs: the task state machine, `send`, `reconcile`.
--   Round                round/decide.mjs (Budget, Batch, Action) and round/keeper.mjs (Dispatch, Start, Phases,
--                        Sealing for sealPhase and stakingSealPhase, Rounds for roundsPhase); Manager is the
--                        round's life in src/v3/RewardRoundManager.sol, the other side of the keeper's calls.
--   Market, Oracle       lib/market.mjs and oracle/decide.mjs: calendar, triggers, decidePush, debouncer.
--   Demand               lib/price-demand.mjs and parseDemand of oracle/decide.mjs: the request file between keepers;
--                        Awaiting is priceReady of the Desk and the push keeper.
--   Merkle               lib/merkle.mjs: roots and proofs of checkpoints.
--   Ingress              ingress/decide.mjs (Routing, Buyback, Evidence) and advanceLot, convert and runBuybacks (Lots)
--                        and runBurnAndDesk (Burns) of ingress/keeper.mjs.
--   Desk                 desk/decide.mjs (Streams, Groups, Pass) and desk/keeper.mjs: the journal and `send` (Ledger),
--                        entryIdOf (Entries), usdcStream (Walk), scanQueues (Queues), streamsPhase (Sweep),
--                        openPhase (Opening), servicePhase (Service) and their composition (Tick).
--   Payout               push/decide.mjs (Cycle, Gas) and push/keeper.mjs: knownQueues (Known), the allocations and
--                        direct queues (Prepare), serviceQueue (Service).
--   Launcher             launcher/keeper.mjs: plan (Planning), launchOne and the queue (Launch), watchFills and the
--                        round keeper's lane (Fills).
--   Vault                vault/keeper.mjs: scan, executeWaiting, returnLiabilities.
--   Refund, Float        refund/keeper.mjs (Needs, Credit, and Scan for the loop of tick) and float/watch.mjs:
--                        refunds out of the float, and its watch.
--   Relay                lib/relay.mjs: fee planning and the checks of untrusted quotes.
--   Discovery, Health, Lock, Restock
--                        lib/discovery.mjs with the keepers' discoverPhase, lib/health.mjs with lib/balances.mjs
--                        and the limits of lib/alert.mjs and lib/runner.mjs, lib/lock.mjs, restock/gate.mjs.
--   Base                 what they share: tests on numbers, lists, dictionaries, results, laws of division.
--
-- A component's definitions stand in its file, named after the source's functions in snake case; its laws in the
-- files below it, and runs at concrete inputs in its Tests. BigInts and the numbers that the source uses as
-- integers are the native natural numbers; where the source compares a difference that may be negative, the test
-- is written without the subtraction. Addresses, hashes, keys and texts are numbers, a missing value is `none`, a
-- thrown error a Result or an Option. What is outside the program, the chain, the quote services, the clock, the
-- signer and keccak256, is a parameter or a record of readings. A keeper that sends works on a type of worlds: a
-- record of functions says what a world answers, a call gives the next world and whether it was confirmed, and the
-- state remembers each call with the world that it was made in, so that a property can say what was so when the
-- call was made.
--
-- Fuel: Merkle's loops run on the number of leaves, the packing of Desk on the number of streams, the buybacks on
-- a number of chunks whose sum covers the budget, and each is enough by the theorems on it; the loops of Relay and
-- Discovery are bounded in the source by the same number.
--
-- The walk of a Desk stream has the source's five steps, and the registration of a payout source its 64 pages; the
-- endless loops that read queues forward and the scan of the vault's logs run on fuel, and the theorems on them say
-- how much is enough.
--
-- Not modelled: the drivers of the oracle, restock and canonical keepers, the collection of the ingress keeper, the
-- round keeper's reserved starts and stranded fees, the floating-point decisions of the restock keeper, files, HTTP,
-- logging, ABI encoding and signatures.
pub mod Base
pub mod Round
pub mod Journal
pub mod Tx
pub mod Market
pub mod Oracle
pub mod Merkle
pub mod Ingress
pub mod Desk
pub mod Demand
pub mod Discovery
pub mod Float
pub mod Lock
pub mod Health
pub mod Payout
pub mod Refund
pub mod Relay
pub mod Restock
pub mod Launcher
pub mod Vault
