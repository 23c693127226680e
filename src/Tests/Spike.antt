-- ===== src/Tests/Spike.antt =====
-- Instances of the theorems about the spike's clients and the lite program.
use batch_it_protocol.Prelude.{
  [], arith, err, false, inl, map, none, ok, refl, replicate, some, true, ◌++◌, ◌≡◌, ◌↔◌, ◌∷◌, take,
  drop,
}
use batch_it_protocol.Prelude.Int.{negsuc, pos}
use batch_it_protocol.Web3.{Instruction}
use batch_it_protocol.Web3.Buffer.{out_of_range}
use batch_it_protocol.Spike.Config.{
  merge_into, merged, Fields, deep_merge, field, get, no_fields, number, object, text,
}
use batch_it_protocol.Spike.Config.Merge.{IsParsed, at_path, deep_merge-at_path}
use batch_it_protocol.Spike.Fees.{decode_global_fees}
use batch_it_protocol.Spike.Fees.Layout.{
  Global, IsGlobal, decode_global_fees-layout, fees_of, global_bytes,
}
use batch_it_protocol.Spike.Jito.{send_bundle, send_bundle-agrees}
use batch_it_protocol.Spike.Lite.{LiteBuyParams, buy_ix, buyer_pda, fund_ix, process_instruction}
use batch_it_protocol.Spike.Lite.Relay.{
  as_buyer, info_of, lite_buy_relays, lite_fund_transfers, unsigned_info_of,
}
use batch_it_protocol.Spike.Lite.Safety.{Allowed, process_instruction-Allowed}
use batch_it_protocol.Spike.Program.{PdaBuyParams, anchor_disc, build_pda_buy_ix}
use batch_it_protocol.Spike.Program.Data.{build_pda_buy_ix-data, builders_refuse, read_buy_args}
use batch_it_protocol.Spike.Pump.{BuyParams, build_buy_exact_sol_in_ix, account}
use batch_it_protocol.Orchestrator.Jito.{Engine, body, send_jito_bundle, sent}
use batch_it_protocol.Orchestrator.Config.{JitoConfig}
use batch_it_protocol.Tests.Web3.{solana, web3, web3-IsWeb3}

abbrev pub global : Global
global = record {
  initialized = true;
  authority = 5;
  fee_recipient = 300;
  initial_virtual_token_reserves = 7;
  initial_virtual_sol_reserves = 8;
  initial_real_token_reserves = 9;
  token_total_supply = 1000;
  fee_basis_points = 95;
  withdraw_authority = 6;
  enable_migrate = false;
  pool_migration_fee = 15;
  creator_fee_basis_points = 30;
  fee_recipients = 11 ∷ 12 ∷ 13 ∷ 14 ∷ 15 ∷ 16 ∷ 17 ∷ [];
  set_creator_authority = 18;
  admin_set_creator_authority = 19;
  create_v2_enabled = true;
  whitelist_pda = 20;
  reserved_fee_recipient = 21;
  mayhem_mode_enabled = false;
  reserved_fee_recipients = 22 ∷ 23 ∷ 24 ∷ 25 ∷ 26 ∷ 27 ∷ 28 ∷ [];
  is_cashback_enabled = true;
  buyback_fee_recipients = 31 ∷ 32 ∷ 33 ∷ 34 ∷ 35 ∷ 36 ∷ 37 ∷ 38 ∷ [];
}

pub global-IsGlobal : IsGlobal global
global-IsGlobal = record {
  authority = omega arith;
  fee_recipient = omega arith;
  initial_virtual_token_reserves = omega arith;
  initial_virtual_sol_reserves = omega arith;
  initial_real_token_reserves = omega arith;
  token_total_supply = omega arith;
  fee_basis_points = omega arith;
  withdraw_authority = omega arith;
  pool_migration_fee = omega arith;
  creator_fee_basis_points = omega arith;
  fee_recipients = (
    omega arith,
    (omega arith, (omega arith, (omega arith, (omega arith, (omega arith, (omega arith, tt)))))),
  );
  seven_recipients = refl;
  set_creator_authority = omega arith;
  admin_set_creator_authority = omega arith;
  whitelist_pda = omega arith;
  reserved_fee_recipient = omega arith;
  reserved_fee_recipients = (
    omega arith,
    (omega arith, (omega arith, (omega arith, (omega arith, (omega arith, (omega arith, tt)))))),
  );
  seven_reserved = refl;
  buyback_fee_recipients = (
    omega arith,
    (
      omega arith,
      (omega arith, (omega arith, (omega arith, (omega arith, (omega arith, (omega arith, tt)))))),
    ),
  );
  eight_buyback = refl;
}

decode_global_fees-layout_example :
    decode_global_fees web3 (replicate 8 0 ++ (global_bytes global ++ (1 ∷ 2 ∷ [])))
    ≡ ok (fees_of global)
decode_global_fees-layout_example =
    decode_global_fees-layout web3 web3-IsWeb3 global global-IsGlobal (replicate 8 0) (1 ∷ 2 ∷ [])
      refl

abbrev lite_params : LiteBuyParams
lite_params = record {
  program_id = 50;
  mint = 60;
  creator = 70;
  fee_recipient = 80;
  buyback_fee_recipient = 90;
  spendable_sol_in = pos 1000000;
  min_tokens_out = pos 1;
}

lite_buy_relays_example :
    (ix : Instruction) × (buy : Instruction) × (buy_ix web3 lite_params ≡ ok ix)
    × (build_buy_exact_sol_in_ix web3 (as_buyer web3 lite_params) ≡ ok buy)
    × (process_instruction web3 solana ix.program_id (map info_of ix.keys) ix.data_bytes
        ≡ solana.invoke_signed buy
            (map unsigned_info_of buy.keys)
            (web3.utf8 "buyer" ∷ ((buyer_pda web3 50).1 ∷ []) ∷ []))
lite_buy_relays_example =
    lite_buy_relays web3 solana lite_params 1000000 1 refl refl (omega arith) (omega arith)
      (omega arith)

fund_moves_lamports :
    (ix : Instruction) × (fund_ix web3 50 77 (pos 6000000) ≡ ok ix)
    × (process_instruction web3 solana 50 (map info_of ix.keys) ix.data_bytes
        ≡ solana.invoke_signed
            (solana.transfer 77 (buyer_pda web3 50).0 6000000)
            (map info_of ix.keys)
            [])
fund_moves_lamports = lite_fund_transfers web3 solana 50 77 6000000 (omega arith) (omega arith)

process_instruction-Allowed_example : Allowed web3 solana 50 (
    process_instruction web3 solana 50
      (map info_of (account 77 true true ∷ account 53 false true ∷ account 1 false false ∷ []))
      (0 ∷ 5 ∷ 0 ∷ 0 ∷ 0 ∷ 0 ∷ 0 ∷ 0 ∷ 0 ∷ []))
process_instruction-Allowed_example =
    process_instruction-Allowed web3 solana 50
      (map info_of (account 77 true true ∷ account 53 false true ∷ account 1 false false ∷ []))
      (0 ∷ 5 ∷ 0 ∷ 0 ∷ 0 ∷ 0 ∷ 0 ∷ 0 ∷ 0 ∷ [])

abbrev pub pda_params : PdaBuyParams
pda_params = record {
  program_id = 50;
  mint = 60;
  creator = 70;
  fee_recipient = 80;
  buyback_fee_recipient = 90;
  spendable_sol_in = pos 1000000;
  min_tokens_out = pos 1;
  track_volume = some true;
  token_program = none;
}

pda_data_read :
    (ix : Instruction) × (build_pda_buy_ix web3 pda_params ≡ ok ix)
    × (take 8 ix.data_bytes ≡ anchor_disc web3 "buy_exact_sol_in_with_pda")
    × (read_buy_args (drop 8 ix.data_bytes) ≡ ok ((1000000, 1, true), []))
pda_data_read =
    build_pda_buy_ix-data web3 pda_params 1000000 1 web3-IsWeb3 refl refl (omega arith)
      (omega arith)

abbrev direct_params : BuyParams
direct_params = as_buyer web3 lite_params

negative_refused :
    (build_buy_exact_sol_in_ix web3
        (record direct_params { spendable_sol_in = negsuc 0; min_tokens_out = pos 1 })
      ≡ err out_of_range)
    × (build_pda_buy_ix web3
          (record pda_params { spendable_sol_in = negsuc 0; min_tokens_out = pos 1 })
        ≡ err out_of_range)
    × (buy_ix web3 (record lite_params { spendable_sol_in = negsuc 0; min_tokens_out = pos 1 })
        ≡ err out_of_range)
negative_refused =
    builders_refuse web3 direct_params pda_params lite_params (negsuc 0) (pos 1) (inl (λ v e. cc))

abbrev base : Fields
base = field "rpcUrl" (text "a") (
    field "jito" (object (field "tipLamports" (number 5) (field "note" (text "n") no_fields)))
      no_fields)

abbrev over : Fields
over = field "jito" (object (field "tipLamports" (number 9) no_fields)) no_fields

-- A field of an inner object that the overrides leave out.
deep_merge-at_path_example :
    at_path ("jito" ∷ "note" ∷ []) (some (object (deep_merge (λ i. "0") base over)))
    ≡ some (text "n")
unfolding IsParsed
deep_merge-at_path_example =
    deep_merge-at_path (λ i. "0") ("jito" ∷ "note" ∷ []) base over (refl, (refl, tt, tt), tt)

-- The merged object keeps the base's other fields.
merged_jito :
    get "jito" (deep_merge (λ i. "0") base over)
    ≡ some (object (field "tipLamports" (number 9) (field "note" (text "n") no_fields)))
unfolding deep_merge merge_into merged
merged_jito = refl

abbrev engine : Engine
engine = record { reply = λ request. body none (some "id"); null_message = "null" }

abbrev jito_config : JitoConfig
jito_config = record {
  block_engine_url = "https://engine/";
  bundle_api_path = "/api";
  tip_lamports = 5;
  tip_accounts = "t" ∷ [];
}

sent_alike :
    (send_bundle engine jito_config ("tx" ∷ []) ≡ sent "id")
    ↔ (send_jito_bundle engine jito_config ("tx" ∷ []) ≡ sent "id")
sent_alike = send_bundle-agrees engine jito_config ("tx" ∷ []) "id"
