-- ===== src/Tests/Runs.antt =====
-- Instances of the theorems about the spike's runs: every call succeeds, and the buyer ends up with 600
-- tokens.
use batch_it_protocol.Prelude.{
  arith, take, drop, List, [], false, none, ok, refl, replicate, some, true, ℕ, ◌++◌, ◌≡◌, ◌∷◌,
}
use batch_it_protocol.Orchestrator.Jito.{not_sent}
use batch_it_protocol.Web3.{Instruction}
use batch_it_protocol.Spike.LiteRun.{Builders, LiteInputs, SpikeConfig, proven}
use batch_it_protocol.Spike.LiteRun
use batch_it_protocol.Spike.LiteRun.Verdict.{Verdict}
use batch_it_protocol.Spike.Run.{Inputs}
use batch_it_protocol.Spike.Run.Paths
use batch_it_protocol.Spike.Run.Verdict.{RunVerdict, main-RunVerdict, main_ignores_amount}
use batch_it_protocol.Spike.Fees.Layout.{global_bytes}
use batch_it_protocol.Prelude.Bytes.{le_bytes}
use batch_it_protocol.Spike.Fees.{decode_global_fees, read_global_fees}
use batch_it_protocol.Spike.Lite.{buy_ix, fund_ix}
use batch_it_protocol.Spike.Program.{anchor_disc, build_fund_buyer_ix, build_pda_buy_ix}
use batch_it_protocol.Spike.Pump.{
  CreateParams, create_discriminator, build_create_ix, encode_string,
}
use batch_it_protocol.Spike.Run
use batch_it_protocol.Spike.Run.Success.{main_lands}
use batch_it_protocol.Spike.Pump.Create.{build_create_ix-data, read_create_args}
use batch_it_protocol.Spike.Run.{already_deployed, skipping_upgrade, ensure_program_deployed}
use batch_it_protocol.Web3.Buffer.{write_u32, write_u64}
use batch_it_protocol.Web3.Reader.{read_bool, read_key, read_keys, read_u64}
use batch_it_protocol.Tests.Spike.{global, global-IsGlobal}
use batch_it_protocol.Tests.Web3.{web3, web3-IsWeb3}

abbrev pub config : SpikeConfig
config = record {
  buy_sol_lamports = 1000000;
  min_tokens_out = 1;
  token_name = "Name";
  token_symbol = "SYM";
  token_uri = "uri";
}

abbrev budget : ℕ → Instruction
budget n = record { program_id = 5; keys = []; data_bytes = n ∷ [] }

abbrev pub builders : Builders
builders = record {
  set_compute_unit_limit = budget;
  set_compute_unit_price = budget;
  create_associated_token_account = λ payer ata owner mint. budget ata;
}

abbrev pub account_data : List ℕ
account_data = replicate 8 0 ++ (global_bytes global ++ (7 ∷ []))

abbrev lite_inputs : LiteInputs
lite_inputs = record {
  spike = config;
  builders = builders;
  program_id = 50;
  funder = 77;
  mint = 60;
  balance = ok 200000000;
  global_data = ok (some account_data);
  create_signature = λ txs. ok "create";
  blockhash = ok "hash";
  simulation = λ txs. ok none;
  buy_signature = λ txs. ok "buy";
  token_amount = λ ata. ok 600;
}

abbrev inputs : Inputs
inputs = record {
  spike = config;
  builders = builders;
  program_id = 50;
  funder = 77;
  new_mint = 60;
  balance = ok 900000000;
  deployment = record {
    executable = ok true;
    is_built = true;
    missing_message = "missing";
    force_upgrade = false;
    tool_output = ok "done";
  };
  global_data = ok (some account_data);
  buyer_balance = ok 10;
  same_blockhash = ok "hash";
  same_simulation = λ txs. ok (record { error = none; logs = [] });
  same_sent = λ txs. ok "all";
  same_confirmed = λ signature. ok "confirmed";
  same_amount = λ ata. ok 600;
  probe = ok (not_sent "no bundles here");
  create_sent = λ txs. ok "create";
  prepare_sent = λ txs. ok "prepare";
  split_blockhash = ok "hash";
  split_simulation = λ txs. ok (record { error = none; logs = [] });
  split_sent = λ txs. ok "buy";
  split_amount = λ ata. ok 600;
}

main-RunVerdict_example : RunVerdict web3 inputs (Paths.main web3 inputs)
main-RunVerdict_example = main-RunVerdict web3 inputs

amount_ignored :
    Paths.main web3 (record inputs { split_amount = λ ata. ok 0 })
    ≡ Paths.main web3 (record inputs { split_amount = λ ata. ok 600 })
amount_ignored = main_ignores_amount web3 inputs 0 600

deployed :
    ensure_program_deployed inputs.program_id inputs.deployment
    ≡ ok (already_deployed 50 ∷ skipping_upgrade ∷ [])
unfolding ensure_program_deployed
deployed = refl

abbrev create_params : CreateParams
create_params = record {
  mint = 60;
  user = 77;
  creator = 53;
  name = "Name";
  symbol = "SYM";
  uri = "uri";
}

main_lands_example :
    ((Paths.main web3 inputs).status ≡ 0) × ((Paths.main web3 inputs).printed ≡ Run.proven)
main_lands_example =
    main_lands web3 web3-IsWeb3 inputs 900000000 10 (already_deployed 50 ∷ skipping_upgrade ∷ [])
      global (replicate 8 0) (7 ∷ []) "hash" "all" "confirmed" [] 600 refl (omega arith) deployed
      global-IsGlobal refl refl (omega arith) (omega arith) (omega arith) refl (omega arith)
      (omega arith) refl (λ txs. refl) (λ txs. refl) refl refl (omega arith)

build_create_ix-data_example :
    (ix : Instruction) × (build_create_ix web3 create_params ≡ ok ix)
    × (take 8 ix.data_bytes ≡ create_discriminator)
    × (read_create_args web3 (drop 8 ix.data_bytes)
        ≡ ok ((web3.utf8 "Name", web3.utf8 "SYM", web3.utf8 "uri", 53), []))
build_create_ix-data_example =
    build_create_ix-data web3 web3-IsWeb3 create_params (omega arith) (omega arith) (omega arith)
      (omega arith)

-- Both runs succeed.
lite_run : (LiteRun.main web3 lite_inputs).status ≡ 0
unfolding LiteRun.main decode_global_fees read_global_fees read_bool read_key read_u64 le_bytes
    read_keys build_create_ix encode_string write_u32 write_u64 fund_ix buy_ix
lite_run = refl

run : (Paths.main web3 inputs).status ≡ 0
unfolding Paths.main decode_global_fees read_global_fees read_bool read_key read_u64 le_bytes
    read_keys build_create_ix encode_string write_u32 write_u64 ensure_program_deployed
    build_fund_buyer_ix anchor_disc build_pda_buy_ix
run = refl
