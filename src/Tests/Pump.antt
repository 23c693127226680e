-- ===== src/Tests/Pump.antt =====
-- The program's call of pump on the accounts that the client derives.
use batch_it_protocol.Prelude.{List, [], arith, false, map, ok, refl, some, true, ◌≡◌, ◌∷◌, ℕ, none}
use batch_it_protocol.Prelude.Int.{pos}
use batch_it_protocol.Escrow.Pump.{
  PumpAccounts, cpi-client, cpi_buy_exact_sol_in, infos, or_buy_failed,
}
use batch_it_protocol.Escrow.Types.{Pubkey}
use batch_it_protocol.Web3.{AccountMeta, Instruction}
use batch_it_protocol.Spike.Lite.{AccountInfo}
use batch_it_protocol.Spike.Pump.{
  BuyParams, associated_bonding_curve, bonding_curve_pda, bonding_curve_v2_pda,
  build_buy_exact_sol_in_ix, buy_keys, creator_vault_pda, event_authority_pda, fee_config_pda,
  global_pda, global_volume_accumulator_pda, pump_fee_program_id, pump_program_id,
  user_volume_accumulator_pda,
}
use batch_it_protocol.Localnet.CompleteBuy.{CompleteBuyParams, complete_buy_ix, take_complete_buy}
use batch_it_protocol.Localnet.CompleteBuy.Relay.{as_pool_buyer, complete_buy_relays}
use batch_it_protocol.Prelude.{drop, take}
use batch_it_protocol.Spike.Lite.Relay.{info_of}
use batch_it_protocol.Spike.Program.{anchor_disc}
use batch_it_protocol.Web3.Reader.{read_u64}
use batch_it_protocol.Tests.Web3.{solana, web3, web3-IsWeb3}

abbrev buy : BuyParams
buy = record {
  user = 53;
  mint = 60;
  creator = 70;
  spendable_sol_in = pos 1000000;
  min_tokens_out = pos 1;
  fee_recipient = 80;
  buyback_fee_recipient = some 90;
  token_program = none;
  track_volume = none;
}

abbrev info : Pubkey → AccountInfo
info k = record { key = k; is_signer = false; is_writable = true }

abbrev accounts : PumpAccounts
accounts = record {
  global = info (global_pda web3);
  fee_recipient = info 80;
  mint = info 60;
  bonding_curve = info (bonding_curve_pda web3 60);
  associated_bonding_curve =
      info (associated_bonding_curve web3 (bonding_curve_pda web3 60) 60 (some 2));
  associated_user = info (web3.associated_token_address 60 53 2);
  buyer = info 53;
  system_program = info 1;
  token_program = info 2;
  creator_vault = info (creator_vault_pda web3 70);
  event_authority = info (event_authority_pda web3);
  pump_program = info (pump_program_id web3);
  global_volume_accumulator = info (global_volume_accumulator_pda web3);
  user_volume_accumulator = info (user_volume_accumulator_pda web3 53);
  fee_config = info (fee_config_pda web3);
  fee_program = info (pump_fee_program_id web3);
  bonding_curve_v2 = info (bonding_curve_v2_pda web3 60);
  buyback_fee_recipient = info 90;
}

same_keys :
    map (λ (x : AccountInfo). x.key) (infos accounts)
    ≡ map (λ (x : AccountMeta). x.pubkey) (buy_keys web3 buy)
unfolding buy_keys
same_keys = refl

abbrev seeds : List (List ℕ)
seeds = (1 ∷ []) ∷ (254 ∷ []) ∷ []

called_as_built :
    (ix : Instruction) × (build_buy_exact_sol_in_ix web3 buy ≡ ok ix)
    × (cpi_buy_exact_sol_in web3 solana seeds accounts 1000000 1
        ≡ or_buy_failed (solana.invoke_signed ix (infos accounts) seeds))
called_as_built =
    cpi-client web3 solana seeds accounts buy 1000000 1 same_keys refl refl refl (omega arith)
      (omega arith)

abbrev complete_params : CompleteBuyParams
complete_params = record {
  caller = 77;
  creator = 7;
  seed = pos 3;
  mint = 60;
  fee_recipient = 80;
  buyback_fee_recipient = 90;
  min_tokens_out = pos 1;
}

complete_buy_relays_example :
    (ix : Instruction) × (a : PumpAccounts) × (bought : Instruction) × (complete_buy_ix web3
        complete_params
      ≡ ok ix)
    × (take 8 ix.data_bytes ≡ anchor_disc web3 "complete_buy")
    × (read_u64 (drop 8 ix.data_bytes) ≡ ok (1, []))
    × (take_complete_buy (map info_of ix.keys) ≡ some a)
    × (build_buy_exact_sol_in_ix web3
          (as_pool_buyer web3 web3-IsWeb3 solana complete_params 3 1 1000000)
        ≡ ok bought)
    × (cpi_buy_exact_sol_in web3 solana seeds a 1000000 1
        ≡ or_buy_failed (solana.invoke_signed bought (infos a) seeds))
complete_buy_relays_example =
    complete_buy_relays web3 web3-IsWeb3 solana complete_params 3 1 1000000 seeds refl refl
      (omega arith) (omega arith) (omega arith)
