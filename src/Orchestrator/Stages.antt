-- ===== src/Orchestrator/Stages.antt =====
-- apps/orchestrator/src/state-machine.ts. A number of seconds is an integer.
pub mod Laws
use batch_it_protocol.Prelude.{Bool, Option, if◌then◌else◌, not}
use batch_it_protocol.Prelude.Int.{leb_ℤ, ℤ}
use batch_it_protocol.Prelude.Texts.{same_text}
use Prim.Native.String.{String}

pub data Stage : Type 0 where
  idle waiting_launch_at begin_launch_sent building_bundle bundle_submitted confirming : Stage
  bought finalized failed refund_window : Stage

pub data SubmissionMode : Type 0 where
  jito sequential_debug : SubmissionMode

-- The time stamp `updatedAt`, which only `save` writes and nothing reads, is left out.
pub record LaunchState : Type 0 where
  pub pool : String
  pub mint : String
  pub stage : Stage
  pub last_bundle_id : Option String
  pub last_error : Option String
  pub submission_mode : SubmissionMode

unfoldable pub next_stage_from_chain : String → Bool → ℤ → ℤ → Stage
next_stage_from_chain pool_status curve_exists now grace_ends_at =
    if same_text pool_status "Finalized"
    then finalized
    else if same_text pool_status "Bought"
    then bought
    else if same_text pool_status "Refundable"
    then refund_window
    else if same_text pool_status "Launching"
    then (if leb_ℤ grace_ends_at now
        then refund_window
        else if curve_exists
        then building_bundle
        else building_bundle)
    else if same_text pool_status "Open"
    then (if leb_ℤ grace_ends_at now then refund_window else waiting_launch_at)
    else idle

pub data BundleKind : Type 0 where
  create_and_buy buy_only none_ : BundleKind

unfoldable pub bundle_kind : String → Bool → BundleKind
bundle_kind pool_status curve_exists =
    if not (same_text pool_status "Launching")
    then none_
    else if curve_exists
    then buy_only
    else create_and_buy
