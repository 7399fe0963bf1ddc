-- ===== src/Lib.antt =====
-- The aggregator of exchange prices: a pallet that stores the best price paths between currencies, the
-- off-chain worker that fetches prices and submits paths, and the calculators of the paths.
--
-- The parts and how they interact. The root chooses which pairs are monitored
-- (`submit_monitored_pairs`) and which accounts may submit prices
-- (`add_whitelisted_offchain_authority`). At a block the off-chain worker (`offchain_worker`) checks its
-- trigger and its lock, fetches a price for each monitored pair from the trade provider, gives the
-- prices to the best path calculator, selects the paths that are new or out of tolerance, and submits
-- them as an unsigned transaction with a signed payload. The pool takes that only if
-- `validate_unsigned` does, and the chain applies it by `ocw_submit_best_paths_changes`, whose nonce
-- protects from replay. Signers trade by the stored paths (`trade`).
--
-- The files, with the code that each is about:
-- - Types, Pallet/State, Pallet/Config: pallets/aggregator/src/types.rs, the storage, events, errors
--   and constants of pallets/aggregator/src/lib.rs, and their values in runtime/src/lib.rs. A storage
--   map is a function from keys to optional values (Storage).
-- - Pallet/BestPaths, Pallet/MonitoredPairs, Pallet/Trade, Pallet/Validate: the calls and the
--   validation of pallets/aggregator/src/lib.rs, one function each, with what their children prove.
--   BestPaths/Logged has the submission of paths with its log lines; all else that uses it is about the
--   one without.
-- - Pallet/Chain: dispatch of the calls, and the worlds that can be reached by steps of the chain; its
--   child Journal has the reader who follows all events.
-- - Pallet/Offchain: the worker, with children on the changes it selects (Changes), what they do to the
--   stored paths (Effect), the prices it fetches (Fetched), how a run of it ends (Ends), when it runs
--   (Trigger), and its course over many blocks (Steady).
-- - Utils: pallets/aggregator/src/utils.rs. TradeProvider: pallets/aggregator/src/trade_provider.
--   Heap: pallets/aggregator/src/heap.rs. Template: pallets/template/src/lib.rs.
-- - Pallet/Weights: pallets/aggregator/src/weights.rs.
-- - Node/ChainSpec: the genesis in node/src/chain_spec.rs, and `load_spec` of node/src/command.rs.
--   Node/Service: node/src/service.rs, with what it takes from the crates in Substrate and what it
--   starts in Wanted and Starts. Node/Command: `run` of node/src/command.rs, with the subcommands of
--   node/src/cli.rs.
-- - NoopCalculator and FloydWarshall: pallets/aggregator/src/best_path_calculator. Algo has the graph
--   algorithms of algo.rs and what they compute; MinPlus is the specification of the three loops, a
--   table of exact costs; Longest has the paths that `longest_paths_mult` finds, those with the
--   smallest sums of the negated logarithms as the floats compute each; Calculator has calculator.rs,
--   with the graph of the prices (Priced, Graph), the way back from edges to prices (Hops, Collected),
--   and what the whole calculation returns (Best, Correct).
-- - Runtime: how runtime/src/lib.rs fills the parameters of the pallet, and a whole run of the worker with
--   them, from the fetched prices to the stored paths (Ends); `create_transaction` (Transaction).
-- - Prelude, Ord, Collections: shared names, the order on keys, and `BTreeMap` and `BTreeSet` as the
--   lists of their entries in order.
-- - Tests: runs on small inputs, with concrete instances of all that is generic.
--
-- Numbers. Prices are `u128` in the utilities, whose arithmetic wraps round, saturates or panics as in a
-- release build. Block numbers have the width `block_bits`, nonces are `u64`, and the number of the
-- template pallet is a `u32`. Floating point numbers are an interface (FloydWarshall/Float); the theorems
-- on the graph algorithms ask that those of the input stand for exact costs in a range in which sums are
-- not rounded (`IsExact`, `SumsFit`), as integers up to 2^53 do.
--
-- Every loop is structural recursion on a list, so no fuel is needed anywhere.
--
-- Parameters, which are code outside this repository: the origins of calls, keys and signatures, the
-- signer and the lock of off-chain workers, the HTTP host functions, the parser of the crate `lite_json`,
-- the types of amounts and currencies. A listing of a storage map by its iterator is a list with exactly
-- the stored entries (`IsListing`). The keys of the node are made from seeds by parameters, too; and the
-- functions of the crates that the service and the command line call are records (`Crates`,
-- `Commands`).
--
-- Not modelled: log lines but those of `ocw_submit_best_paths_changes` (those of the worker print texts of
-- currencies, too), encoding of storage and transactions, workers that run at the same time, the rest
-- of the runtime, the RPC and the entry of the node, and the maps that
-- `floyd_warshall_shortest_paths` fills and never reads. That floats compute logarithms which are close to
-- those of real numbers is not stated: the theorems on best paths are about the computed ones.
mod Prelude
pub mod Ord
pub mod Collections
pub mod Types
pub mod Storage
pub mod Utils
pub mod Heap
pub mod TradeProvider
pub mod NoopCalculator
pub mod Template
pub mod Pallet
pub mod FloydWarshall
pub mod Node
pub mod Runtime
mod Tests
