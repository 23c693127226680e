-- ===== src/Orchestrator/Stages/Laws.antt =====
-- The executor's view of the chain against the escrow program.
use batch_it_protocol.Prelude.{
  Bool, Result, arith, err, false, not, refl, true, ℕ, ◌&&◌, ◌==◌, ◌↔◌, ◌≡◌, ◌≢◌,
}
use batch_it_protocol.Prelude.Int.{leb_ℤ, ltb_ℤ, ℤ}
use Prim.Native.String.{String}
use batch_it_protocol.Escrow.Exit.{refund_allowed}
use batch_it_protocol.Escrow.Launch.{BuyAccounts, complete_buy, execute_buy, is_empty}
use batch_it_protocol.Escrow.Runtime.{Runtime}
use batch_it_protocol.Escrow.Types.{
  Failure, PoolStatus, Pubkey, bad_status, create_not_landed, default_pubkey, program,
}
use batch_it_protocol.Orchestrator.Stages.{BundleKind, Stage, bundle_kind, next_stage_from_chain}

-- The names of the statuses, as `STATUS_NAMES` in tests/localnet/src/pool-decode.ts has them.
abbrev pub status_name : PoolStatus → String
status_name PoolStatus.opened = "Open"
status_name PoolStatus.launching = "Launching"
status_name PoolStatus.bought = "Bought"
status_name PoolStatus.finalized = "Finalized"
status_name PoolStatus.refundable = "Refundable"
status_name PoolStatus.closed = "Closed"

-- The executor waits for refunds exactly in the states in which the program allows them.
pub next_stage-refund :
    (s : PoolStatus) (curve : Bool) (now grace_ends_at : ℤ)
    → (next_stage_from_chain (status_name s) curve now grace_ends_at ≡ Stage.refund_window)
      ↔ (refund_allowed s (leb_ℤ grace_ends_at now) ≡ true)
unfolding next_stage_from_chain refund_allowed
next_stage-refund PoolStatus.opened curve now g = ground arith
next_stage-refund PoolStatus.launching curve now g = ground arith
next_stage-refund PoolStatus.bought curve now g = ground arith
next_stage-refund PoolStatus.finalized curve now g = ground arith
next_stage-refund PoolStatus.refundable curve now g = ground arith
next_stage-refund PoolStatus.closed curve now g = ground arith

-- The executor builds a bundle exactly while the pool is launching and its grace period is running.
pub next_stage-building :
    (s : PoolStatus) (curve : Bool) (now grace_ends_at : ℤ)
    → (next_stage_from_chain (status_name s) curve now grace_ends_at ≡ Stage.building_bundle)
      ↔ ((s ≡ PoolStatus.launching) × (leb_ℤ grace_ends_at now ≡ false))
unfolding next_stage_from_chain
next_stage-building PoolStatus.opened curve now g = ground arith
next_stage-building PoolStatus.launching curve now g = ground arith
next_stage-building PoolStatus.bought curve now g = ground arith
next_stage-building PoolStatus.finalized curve now g = ground arith
next_stage-building PoolStatus.refundable curve now g = ground arith
next_stage-building PoolStatus.closed curve now g = ground arith

-- Whether pump's bonding curve is among the accounts.
abbrev pub curve_landed : Pubkey → BuyAccounts → Bool
curve_landed pump a = not (is_empty a.market.curve_data) && a.curve_owner == pump

-- What the program answers to the buy of each kind of bundle, when no create comes before it.
abbrev pub answer : Runtime → BuyAccounts → ℕ → BundleKind → Result Failure BuyAccounts
answer r a n BundleKind.create_and_buy = err (program create_not_landed)
answer r a n BundleKind.buy_only = execute_buy r a n
answer r a n BundleKind.none_ = err (program bad_status)

at_status :
    (r : Runtime) (pump : Pubkey) (now : ℤ) (a : BuyAccounts) (n : ℕ) (s : PoolStatus)
    → a.pool.status ≡ s
    → s ≢ PoolStatus.bought
    → ltb_ℤ now a.pool.grace_ends_at ≡ true
    → a.pool.mint ≢ default_pubkey
    → a.mint ≡ a.pool.mint
    → complete_buy r pump now a n ≡ answer r a n (bundle_kind (status_name s) (curve_landed pump a))
unfolding complete_buy bundle_kind
at_status r pump now a n PoolStatus.opened e fresh running committed matches = ground arith
at_status r pump now a n PoolStatus.launching e fresh running committed matches = ground arith
at_status r pump now a n PoolStatus.bought e fresh running committed matches = absurd (fresh refl)
at_status r pump now a n PoolStatus.finalized e fresh running committed matches = ground arith
at_status r pump now a n PoolStatus.refundable e fresh running committed matches = ground arith
at_status r pump now a n PoolStatus.closed e fresh running committed matches = ground arith

-- On a pool that is not bought yet, in a running grace period, with a mint committed that is the one
-- passed, `bundle_kind` tells from the status and the curve what the program does with the buy alone:
-- `buy_only` where it carries the buy out, `create_and_buy` where it answers that the create has not
-- landed, and none where the status refuses it.
pub bundle_kind-complete_buy :
    (r : Runtime) (pump : Pubkey) (now : ℤ) (a : BuyAccounts) (n : ℕ)
    → a.pool.status ≢ PoolStatus.bought
    → ltb_ℤ now a.pool.grace_ends_at ≡ true
    → a.pool.mint ≢ default_pubkey
    → a.mint ≡ a.pool.mint
    → complete_buy r pump now a n
      ≡ answer r a n (bundle_kind (status_name a.pool.status) (curve_landed pump a))
bundle_kind-complete_buy r pump now a n fresh running committed matches =
    at_status r pump now a n a.pool.status refl fresh running committed matches
