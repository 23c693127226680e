-- ===== src/Orchestrator/Executor.antt =====
-- apps/orchestrator/src/launch.ts: one run of the launch executor, as the list of what it writes and
-- sends, in order, and its exit status. The lines that it prints are left out.
pub mod Laws
use batch_it_protocol.Prelude.{
  Bool, List, Option, [], false, if◌then◌else◌, none, not, some, ℕ, ◌++◌, ◌∷◌,
}
use batch_it_protocol.Prelude.Texts.{is_truthy}
use Prim.Native.String.{String}
use batch_it_protocol.Orchestrator.Config.{or_else}
use batch_it_protocol.Orchestrator.Jito.{BundleResult, not_sent, sent}
use batch_it_protocol.Orchestrator.Stages.{
  LaunchState, SubmissionMode, building_bundle, bundle_submitted, confirming, failed, idle, jito,
  sequential_debug,
}

-- What a run finds: the variables of its environment, the configuration, the state that an earlier run
-- saved, whether the key file can be read, the transactions in the file that BATCHIT_BUNDLE_TXS names
-- (`none` where it cannot be read), the signed tip (`none` where it could not be built), and the
-- answer to a bundle.
pub record Inputs : Type 0 where
  pub pool : Option String
  pub mint : Option String
  pub allow_sequential_rpc : Bool
  pub saved_state : Option LaunchState
  pub keypair_readable : Bool
  pub bundle_path : Option String
  pub bundle_file : Option (List String)
  pub tip : Option String
  pub submit : List String → BundleResult

pub data Action : Type 0 where
  save : LaunchState → Action
  submit : List String → Action

pub record Run : Type 0 where
  pub actions : List Action
  pub status : ℕ

abbrev pub set_to : Option String → Bool
set_to none = false
set_to (some x) = is_truthy x

unfoldable pub mode_of : Inputs → SubmissionMode
mode_of i = if i.allow_sequential_rpc then sequential_debug else jito

-- The state that the run starts from: the saved one, or a new one, in the mode of this run.
unfoldable pub initial_state : Inputs → LaunchState
unfolding mode_of
initial_state i =
    let fresh : LaunchState = record {
      pool = or_else i.pool "";
      mint = or_else i.mint "";
      stage = idle;
      last_bundle_id = none;
      last_error = none;
      submission_mode = mode_of i;
    } in
    elim i.saved_state [ none ↦ fresh | some s ↦ record s { submission_mode = mode_of i } ]

-- The branch `if (mode === "jito")`.
unfoldable pub submit_bundle : Inputs → LaunchState → List String → Run
submit_bundle i s transactions = elim i.tip [
  | none ↦ record { actions = []; status = 1 }
  | some tip ↦
      let all = transactions ++ (tip ∷ []) in
      let submitted : LaunchState = record s { stage = bundle_submitted } in
      elim (i.submit all) [
        | sent id ↦ record {
          actions =
              save submitted
              ∷ submit all
              ∷ save (record submitted { last_bundle_id = some id; stage = confirming })
              ∷ [];
          status = 0;
        }
        | not_sent error ↦ record {
          actions =
              save submitted
              ∷ submit all
              ∷ save (record submitted { stage = failed; last_error = some error })
              ∷ [];
          status = 1;
        }
      ]
]

unfoldable pub main : Inputs → Run
unfolding submit_bundle initial_state mode_of
main i =
    let s = initial_state i in
    if not (set_to i.pool)
    then record { actions = []; status = 1 }
    else if not i.keypair_readable
    then record { actions = []; status = 1 }
    else if not (set_to i.bundle_path)
    then record { actions = save (record s { stage = building_bundle }) ∷ []; status = 0 }
    else elim i.bundle_file [
      | none ↦ record { actions = []; status = 1 }
      | some transactions ↦ elim (mode_of i) [
        | jito ↦ submit_bundle i s transactions
        | sequential_debug ↦ record { actions = []; status = 1 }
      ]
    ]
