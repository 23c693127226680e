-- ===== src/Tests/Probe.antt =====
-- Instances of the theorems about the fee probe: every call succeeds, and the account is empty.
use batch_it_protocol.Prelude.{[], arith, get_elem?, none, ok, refl, replicate, some, ℕ, ◌≡◌, ◌∷◌}
use batch_it_protocol.Spike.FeeProbe
use batch_it_protocol.Spike.FeeProbe.{
  ProbeInputs, balance, bought_by, buy_sim_ok, buyback_key, buyer_key, created, fee_probe_success,
  fee_recipient_key, funder_key, mint_key,
}
use batch_it_protocol.Spike.FeeProbe.Success.{probe_announces}
use batch_it_protocol.Spike.FeeProbe.Verdict.{ProbeVerdict, main-ProbeVerdict}
use batch_it_protocol.Tests.Runs.{account_data, builders, config}
use batch_it_protocol.Tests.Spike.{global, global-IsGlobal}
use batch_it_protocol.Tests.Web3.{web3, web3-IsWeb3}

abbrev probe_inputs : ProbeInputs
probe_inputs = record {
  spike = config;
  builders = builders;
  transfer = λ source destination lamports. builders.set_compute_unit_limit lamports;
  funder = 77;
  buyer = 78;
  mint = 60;
  global_data = ok (some account_data);
  create_signature = λ txs. ok "create";
  blockhash = ok "hash";
  simulation = λ txs. ok none;
  buy_signature = λ txs. ok "buy";
  token_amount = λ ata. ok 0;
}

main-ProbeVerdict_example : ProbeVerdict web3 probe_inputs (FeeProbe.main web3 probe_inputs)
main-ProbeVerdict_example = main-ProbeVerdict web3 probe_inputs

probe_announces_example :
    (buyback : ℕ) × (get_elem? global.buyback_fee_recipients 0 ≡ some buyback)
    × (FeeProbe.main web3 probe_inputs ≡ record {
      printed =
          funder_key 77
          ∷ buyer_key 78
          ∷ mint_key 60
          ∷ fee_recipient_key 300
          ∷ buyback_key buyback
          ∷ created "create"
          ∷ buy_sim_ok
          ∷ bought_by "buy"
          ∷ balance 0
          ∷ fee_probe_success
          ∷ [];
      status = 0;
    })
probe_announces_example =
    probe_announces web3 web3-IsWeb3 probe_inputs global (replicate 8 0) (7 ∷ []) "create" "hash"
      "buy" 0 global-IsGlobal refl refl (omega arith) (omega arith) (omega arith) (omega arith)
      (omega arith) (λ txs. refl) refl (λ txs. refl) (λ txs. refl) refl
