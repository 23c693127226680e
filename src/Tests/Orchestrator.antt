-- ===== src/Tests/Orchestrator.antt =====
-- Instances of the theorems about the launch executor.
use batch_it_protocol.Prelude.{[], arith, false, none, refl, some, true, ◌≡◌, ◌↔◌, ◌∷◌}
use batch_it_protocol.Prelude.Int.{leb_ℤ, pos}
use batch_it_protocol.Prelude.Texts.{is_truthy}
use batch_it_protocol.Escrow.Exit.{refund_allowed}
use batch_it_protocol.Escrow.Launch.{BuyAccounts, complete_buy}
use batch_it_protocol.Escrow.Types.{PoolStatus}
use batch_it_protocol.Orchestrator.Config.{JitoConfig}
use batch_it_protocol.Orchestrator.Executor.{Inputs, main}
use batch_it_protocol.Orchestrator.Executor.Laws.{
  WritesAhead, main_resubmits, main-WritesAhead, submissions,
}
use batch_it_protocol.Orchestrator.Jito.{Engine, Reply, body, send_jito_bundle, sent}
use batch_it_protocol.Orchestrator.Jito.Laws.{send_jito_bundle-sent}
use batch_it_protocol.Orchestrator.Stages.{
  LaunchState, Stage, bundle_kind, confirming, jito, next_stage_from_chain,
}
use batch_it_protocol.Orchestrator.Stages.Laws.{
  answer, bundle_kind-complete_buy, curve_landed, next_stage-building, next_stage-refund,
}
use batch_it_protocol.Tests.Runtime.{runtime}
use batch_it_protocol.Tests.Scenario.{launching_pool, pump}

-- A run after one that crashed while its bundle was being confirmed.
abbrev saved : LaunchState
saved = record {
  pool = "p";
  mint = "m";
  stage = confirming;
  last_bundle_id = some "b1";
  last_error = none;
  submission_mode = jito;
}

abbrev inputs : Inputs
inputs = record {
  pool = some "p";
  mint = none;
  allow_sequential_rpc = false;
  saved_state = some saved;
  keypair_readable = true;
  bundle_path = some "bundle.json";
  bundle_file = some ("create" ∷ "buy" ∷ []);
  tip = some "tip";
  submit = λ txs. sent "b2";
}

main-WritesAhead_example : WritesAhead inputs (main inputs)
main-WritesAhead_example = main-WritesAhead inputs

main_resubmits_example : submissions (main inputs).actions ≡ ("create" ∷ "buy" ∷ "tip" ∷ []) ∷ []
main_resubmits_example =
    main_resubmits inputs saved ("create" ∷ "buy" ∷ []) "tip" refl refl refl refl refl refl refl

abbrev jito_config : JitoConfig
jito_config = record {
  block_engine_url = "https://engine/";
  bundle_api_path = "/api/v1/bundles";
  tip_lamports = 10000;
  tip_accounts = "a" ∷ "b" ∷ [];
}

abbrev engine : Engine
engine = record { reply = λ request. body none (some "b2"); null_message = "null" }

bundle_sent :
    (send_jito_bundle engine jito_config ("tx" ∷ []) ≡ sent "b2")
    ↔ ((◌≡◌ {A = Reply} (body none (some "b2")) (body none (some "b2"))) × (is_truthy "b2" ≡ true))
bundle_sent = send_jito_bundle-sent engine jito_config ("tx" ∷ []) "b2"

next_stage-refund_example :
    (next_stage_from_chain "Launching" true (pos 2000) (pos 1000) ≡ Stage.refund_window)
    ↔ (refund_allowed PoolStatus.launching true ≡ true)
next_stage-refund_example = next_stage-refund PoolStatus.launching true (pos 2000) (pos 1000)

building_while_launching :
    (next_stage_from_chain "Launching" true (pos 900) (pos 1000) ≡ Stage.building_bundle)
    ↔ ((PoolStatus.launching ≡ PoolStatus.launching) × (leb_ℤ (pos 1000) (pos 900) ≡ false))
building_while_launching = next_stage-building PoolStatus.launching true (pos 900) (pos 1000)

abbrev accounts : BuyAccounts
accounts = record {
  pool = launching_pool;
  pool_lamports = 1010;
  mint = 9;
  curve_owner = pump;
  market = record {
    buyer_lamports = 0;
    associated_user = record { owner = 71; mint = 9; amount = 0 };
    curve_data = 1 ∷ [];
  };
}

bundle_kind-complete_buy_example :
    complete_buy runtime pump (pos 110) accounts 30
    ≡ answer runtime accounts 30 (bundle_kind "Launching" (curve_landed pump accounts))
bundle_kind-complete_buy_example =
    bundle_kind-complete_buy runtime pump (pos 110) accounts 30 (λ e. cc) refl (omega arith) refl
