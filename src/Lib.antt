-- ===== src/Lib.antt =====
-- The Batch It! protocol: contributors pool SOL in an escrow program, one buy on pump.fun is
-- made for all of them at one price, the surplus is burned, and the rest is claimed pro rata, or
-- everything is refunded when the launch does not happen.
--
-- Parts, and the files that model them.
--
-- Prelude, and the files below it: lists and maps measured by native numbers, signed integers,
-- checked machine arithmetic, floor division and shares, fallible results.
--
-- Burn: packages/core/src/burn.ts. `compute_distributable`, `allocation` and
-- `projected_burn_ratio` are the functions computeDistributable, allocation and
-- projectedBurnRatio; a bigint is a ℤ.
--
-- Escrow: programs/batchit/src. Types has the accounts and errors (state.rs, error.rs), Math the
-- arithmetic (math.rs, and the decoder of pump.rs), Funding create_pool.rs and contribute.rs,
-- Launch begin_launch.rs and complete_buy.rs, Settlement finalize.rs and claim.rs, Exit
-- mark_refundable.rs, refund.rs and close_pool.rs, all under instructions/, and Pump the call of
-- pump in pump.rs. A handler is a function from the accounts that it loads to those that it
-- stores, or to the failure that rolls the transaction back. Runtime has what the program calls
-- and does not implement (the system program, the token program, pump, the derivation of
-- addresses) as a record of functions, and `IsRuntime` the documented behaviour that the
-- theorems assume. Ledger puts one pool with its vault and its contribution accounts together.
-- The vault is the token account that the buyer has for the mint by derivation; an instruction
-- may be passed another one (`Source`), which complete_buy does not constrain at all, while
-- finalize and claim want one of the buyer's. Accounts outside the pool are arguments, as they
-- are before, and results, as they are after. `Step` has a constructor for each instruction of
-- lib.rs but close_pool, and one for payments from outside; `Reachable` is any sequence of them
-- from a pool just created, at a new address or at one where a pool was closed, and Reopening is
-- about the latter. Ledger/Invariant states what holds between two transactions, `Inv`, and what
-- holds as well when the buy went into the vault, `Backed`, which Backing is about. Spec is an
-- abstract specification, a deal among contributors with its moves; Ledger/View reads a ledger
-- as a deal, and Ledger/Refinement compares the instructions with the moves. Ledger/Drain and
-- Ledger/WindUp are the way out, and Ledger/PayAll the way to the end: `refund_all` refunds the
-- contributors in the order of their records and `claim_all` pays them, by recursion on the
-- list. Layout has the accounts as bytes.
--
-- Orchestrator: apps/orchestrator/src. Config is config.ts, Stages state-machine.ts, Jito
-- jito.ts, and Executor launch.ts, whose `main` is a function from what a run finds to what it
-- saves and submits, in order, and its exit status. The signed tip and the answer of the block
-- engine are parameters.
--
-- Web3: what the TypeScript clients call of @solana/web3.js, @solana/spl-token and Node, as a
-- record of functions; `IsWeb3` is the documented behaviour that the theorems assume.
-- Web3/Buffer is Node's Buffer, Web3/Reader the reading of one at an offset that moves on.
--
-- Spike: spikes/pda-buyer/src. Fees and Pump are pump.ts, Lite the builders of run-lite-a.ts
-- with the program that they address (programs/spike_pda_buyer_lite/src/lib.rs), LiteRun its
-- main, Program spike-program.ts, Anchor the program that this addresses
-- (programs/spike_pda_buyer/src/lib.rs), Run with Run/Paths run.ts, Report the writeResult
-- functions, FeeProbe run-fee-probe.ts, Scripts status.ts and probe-bc-v2.ts, Jito jito.ts, and
-- Config config.ts. A run is a function from the answers to its calls, each of which it makes at
-- most once, to what it writes or prints and its exit status; Steps is how it goes on or ends.
-- Fees/Layout has the Global account of third_party/pump-public-docs/pump.json as a record, for
-- comparison.
--
-- Localnet: tests/localnet/src. PoolDecode is pool-decode.ts, CompleteBuy complete-buy-ix.ts.
--
-- Numbers: u64, u32 and u8 are native numbers, kept in range by the checked operations of the
-- source; u128 products are bounded by their modulus; i64 times are integers. No definition
-- takes fuel: every loop of the source that is modelled is a recursion on a list.
--
-- Not modelled: the events that the programs emit, which nothing reads; console output of the
-- runs but for the fee probe and the status, and time stamps; the dispatch that Anchor
-- generates; inspect-idl.ts, which prints what regular expressions find in a file outside the
-- repository, and the parts of probe-bc-v2.ts that print the IDL; the other instruction builders and
-- drivers of the local-network tests.
pub mod Prelude
pub mod Burn
pub mod Escrow
pub mod Orchestrator
pub mod Spike
pub mod Web3
pub mod Localnet
mod Tests
