-- ===== src/Spike/FeeProbe.antt =====
-- spikes/pda-buyer/src/run-fee-probe.ts: the probe that creates a token and buys it with a generated key,
-- as a function from the answers to its calls to the lines that it prints and its exit status. The
-- generated key lies on the curve, where `allowOwnerOffCurve` has no effect.
pub mod Verdict
pub mod Success
use batch_it_protocol.Prelude.{
  List, Option, Result, [], false, get_elem?, none, ok, some, ℕ, ◌+◌, ◌++◌, ◌∷◌,
}
use batch_it_protocol.Prelude.Int.{pos}
use Prim.Native.String.{String}
use batch_it_protocol.Escrow.Types.{Pubkey}
use batch_it_protocol.Web3.{Instruction, Web3}
use batch_it_protocol.Spike.Fees.{PumpGlobalFees, decode_global_fees, pick_fee_recipient}
use batch_it_protocol.Spike.LiteRun.{Builders, SpikeConfig}
use batch_it_protocol.Spike.Pump.{
  BuyParams, CreateParams, build_buy_exact_sol_in_ix, build_create_ix,
}
use batch_it_protocol.Spike.Steps.{Steps, build, call, finish, no_error, present, ◌>>=◌}

-- What the probe finds: its configuration and keys, and an answer for each call that it makes.
pub record ProbeInputs : Type 0 where
  pub spike : SpikeConfig
  pub builders : Builders
  -- `SystemProgram.transfer`: source, destination, lamports
  pub transfer : Pubkey → Pubkey → ℕ → Instruction
  pub funder : Pubkey
  pub buyer : Pubkey
  pub mint : Pubkey
  pub global_data : Result String (Option (List ℕ))
  pub create_signature : List Instruction → Result String String
  pub blockhash : Result String String
  -- the error that the simulation reports, as JSON
  pub simulation : List Instruction → Result String (Option String)
  pub buy_signature : List Instruction → Result String String
  pub token_amount : Pubkey → Result String ℕ

-- The lines that the probe prints, but for the logs of a failed simulation and the exception that it
-- stops at.
pub data ProbeLine : Type 0 where
  funder_key buyer_key mint_key fee_recipient_key buyback_key : Pubkey → ProbeLine
  created bought_by buy_sim_fail : String → ProbeLine
  buy_sim_ok fee_probe_success : ProbeLine
  balance : ℕ → ProbeLine

pub record ProbeRun : Type 0 where
  pub printed : List ProbeLine
  pub status : ℕ

-- An exception, or a failed simulation, after these lines.
abbrev pub stopped : List ProbeLine → ProbeRun
stopped lines = record { printed = lines; status = 1 }

module _ (w : Web3) (i : ProbeInputs) where
  abbrev pub probe_ata : Pubkey
  probe_ata = w.associated_token_address i.mint i.buyer w.token_program

  abbrev pub probe_create_params : CreateParams
  probe_create_params = record {
    mint = i.mint;
    user = i.funder;
    creator = i.buyer;
    name = "BatchIt FeeProbe";
    symbol = "BIFP";
    uri = i.spike.token_uri;
  }

  abbrev pub probe_buy_params : Pubkey → Pubkey → BuyParams
  probe_buy_params fee_recipient buyback = record {
    user = i.buyer;
    mint = i.mint;
    creator = i.buyer;
    spendable_sol_in = pos i.spike.buy_sol_lamports;
    min_tokens_out = pos i.spike.min_tokens_out;
    fee_recipient = fee_recipient;
    buyback_fee_recipient = some buyback;
    token_program = none;
    track_volume = some false;
  }

  abbrev pub probe_create_tx : Instruction → List Instruction
  probe_create_tx create =
      i.builders.set_compute_unit_limit 300000
      ∷ i.builders.set_compute_unit_price 50000
      ∷ i.transfer i.funder i.buyer (i.spike.buy_sol_lamports + 10000000)
      ∷ create
      ∷ i.builders.create_associated_token_account i.funder probe_ata i.buyer i.mint
      ∷ []

  abbrev pub probe_buy_tx : Instruction → List Instruction
  probe_buy_tx buy =
      i.builders.set_compute_unit_limit 400000 ∷ i.builders.set_compute_unit_price 50000 ∷ buy ∷ []

  abbrev pub four_keys : PumpGlobalFees → List ProbeLine
  four_keys fees =
      funder_key i.funder
      ∷ buyer_key i.buyer
      ∷ mint_key i.mint
      ∷ fee_recipient_key (pick_fee_recipient fees)
      ∷ []

  -- From the fifth key on.
  unfoldable pub buy_with : PumpGlobalFees → Pubkey → Steps ProbeRun ProbeRun
  buy_with fees buyback = do
    let keys = four_keys fees ++ (buyback_key buyback ∷ [])
    create ← build (stopped keys) (build_create_ix w probe_create_params)
    buy ←
        build (stopped keys)
          (build_buy_exact_sol_in_ix w (probe_buy_params (pick_fee_recipient fees) buyback))
    create_signature ← call (stopped keys) (i.create_signature (probe_create_tx create))
    let after_create = keys ++ (created create_signature ∷ [])
    _blockhash ← call (stopped after_create) i.blockhash
    simulation ← call (stopped after_create) (i.simulation (probe_buy_tx buy))
    _simulated ← no_error (λ e. stopped (after_create ++ (buy_sim_fail e ∷ []))) simulation
    let simulated = after_create ++ (buy_sim_ok ∷ [])
    buy_signature ← call (stopped simulated) (i.buy_signature (probe_buy_tx buy))
    let after_buy = simulated ++ (bought_by buy_signature ∷ [])
    amount ← call (stopped after_buy) (i.token_amount probe_ata)
    ok (record { printed = after_buy ++ (balance amount ∷ fee_probe_success ∷ []); status = 0 })

  unfoldable pub probe_steps : Steps ProbeRun ProbeRun
  unfolding buy_with
  probe_steps = do
    global_info ← call (stopped []) i.global_data
    global_bytes ← present (stopped []) global_info
    fees ← build (stopped []) (decode_global_fees w global_bytes)
    let four = four_keys fees
    buyback ← present (stopped four) (get_elem? fees.buyback_fee_recipients 0)
    buy_with fees buyback

  unfoldable pub main : ProbeRun
  unfolding probe_steps
  main = finish probe_steps
