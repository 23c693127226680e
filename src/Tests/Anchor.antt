-- ===== src/Tests/Anchor.antt =====
-- Instances of the theorems about the Anchor program.
use batch_it_protocol.Prelude.{Bool, [], arith, drop, map, ok, refl, take, true, ℕ, ◌≡◌, ◌∷◌}
use batch_it_protocol.Web3.{Instruction}
use batch_it_protocol.Spike.Anchor.{Chain, buy_exact_sol_in_with_pda, or_rejected}
use batch_it_protocol.Spike.Anchor.Relay.{as_pda_buyer, pda_buy_relays}
use batch_it_protocol.Spike.Anchor.Safety.{PdaAllowed, buy-PdaAllowed}
use batch_it_protocol.Spike.Lite.{buyer_pda}
use batch_it_protocol.Spike.Lite.Relay.{info_of, unsigned_info_of}
use batch_it_protocol.Spike.Program.{anchor_disc, build_pda_buy_ix, pda_buy_keys}
use batch_it_protocol.Spike.Program.Data.{read_buy_args}
use batch_it_protocol.Spike.Pump.{build_buy_exact_sol_in_ix}
use batch_it_protocol.Tests.Spike.{pda_params}
use batch_it_protocol.Tests.Web3.{solana, web3, web3-IsWeb3}

abbrev chain : Chain
chain = record { is_token_account = λ _. true; is_token_program = λ _. true }

pda_buy_relays_example :
    (ix : Instruction) × (buy : Instruction) × (build_pda_buy_ix web3 pda_params ≡ ok ix)
    × (build_buy_exact_sol_in_ix web3 (as_pda_buyer web3 pda_params) ≡ ok buy)
    × (take 8 ix.data_bytes ≡ anchor_disc web3 "buy_exact_sol_in_with_pda")
    × (args : ℕ × ℕ × Bool) × (read_buy_args (drop 8 ix.data_bytes) ≡ ok (args, []))
    × (buy_exact_sol_in_with_pda web3 solana chain 50 (map info_of ix.keys) args.0 args.1 args.2
        ≡ or_rejected (
            solana.invoke_signed buy
              (map unsigned_info_of buy.keys)
              (web3.utf8 "buyer" ∷ ((buyer_pda web3 50).1 ∷ []) ∷ [])))
pda_buy_relays_example =
    pda_buy_relays web3 solana chain pda_params 1000000 1 web3-IsWeb3 refl refl (omega arith)
      (omega arith) (omega arith) refl refl

buy-PdaAllowed_example : PdaAllowed web3 solana chain 50 (
    buy_exact_sol_in_with_pda web3 solana chain 50
      (map info_of (pda_buy_keys web3 pda_params))
      5
      1
      true)
buy-PdaAllowed_example =
    buy-PdaAllowed web3 solana chain 50 (map info_of (pda_buy_keys web3 pda_params)) 5 1 true
