-- ===== src/Spike/LiteRun.antt =====
-- spikes/pda-buyer/src/run-lite-a.ts: the run that buys through the lite program, as a function from the
-- answers to its calls to the result file that it writes and its exit status. Printed lines, logs, the
-- constant notes of the result and time stamps are left out.
pub mod Verdict
pub mod Success
use batch_it_protocol.Prelude.{
  Bool, List, Option, Result, [], err, false, get_elem?, if◌then◌else◌, ltb, none, ok, some, true,
  ℕ, ◌+◌, ◌==◌, ◌∷◌,
}
use batch_it_protocol.Prelude.Int.{pos}
use Prim.Native.String.{String}
use batch_it_protocol.Escrow.Types.{Pubkey}
use batch_it_protocol.Web3.{Instruction, Web3}
use batch_it_protocol.Spike.Steps.{Steps, build, call, finish, no_error, present, stop_if, ◌>>=◌}
use batch_it_protocol.Spike.Fees.{decode_global_fees, pick_fee_recipient}
use batch_it_protocol.Spike.Lite.{LiteBuyParams, buy_ix, buyer_pda, fund_ix}
use batch_it_protocol.Spike.Pump.{CreateParams, build_create_ix}

-- `cfg.spike`
pub record SpikeConfig : Type 0 where
  pub buy_sol_lamports : ℕ
  pub min_tokens_out : ℕ
  pub token_name : String
  pub token_symbol : String
  pub token_uri : String

-- Instructions that the libraries build.
pub record Builders : Type 0 where
  pub set_compute_unit_limit : ℕ → Instruction
  pub set_compute_unit_price : ℕ → Instruction
  -- payer, associated token account, owner, mint
  pub create_associated_token_account : Pubkey → Pubkey → Pubkey → Pubkey → Instruction

-- What a run finds: its configuration and keys, and an answer for each call that it makes, in the order
-- of the calls. An error is the message of the exception that the call, or what prepares it, throws.
pub record LiteInputs : Type 0 where
  pub spike : SpikeConfig
  pub builders : Builders
  pub program_id : Pubkey
  pub funder : Pubkey
  pub mint : Pubkey
  pub balance : Result String ℕ
  pub global_data : Result String (Option (List ℕ))
  pub create_signature : List Instruction → Result String String
  pub blockhash : Result String String
  -- the error that the simulation reports, as JSON
  pub simulation : List Instruction → Result String (Option String)
  pub buy_signature : List Instruction → Result String String
  pub token_amount : Pubkey → Result String ℕ

pub record LiteResult : Type 0 where
  pub success : Bool
  pub error : Option String
  pub mint : Pubkey
  pub buyer : Pubkey
  pub program : Pubkey
  pub token_amount : Option ℕ
  pub signatures : List String

pub record LiteRun : Type 0 where
  pub written : Option LiteResult
  pub status : ℕ

-- `main().catch`: nothing is written.
abbrev pub thrown : LiteRun
thrown = record { written = none; status = 1 }

module _ (w : Web3) (i : LiteInputs) where
  abbrev pub buyer : Pubkey
  buyer = (buyer_pda w i.program_id).0

  abbrev pub buyer_ata : Pubkey
  buyer_ata = w.associated_token_address i.mint buyer w.token_program

  abbrev pub failed : String → List String → LiteRun
  failed error signatures = record {
    written = some (record {
      success = false;
      error = some error;
      mint = i.mint;
      buyer = buyer;
      program = i.program_id;
      token_amount = none;
      signatures = signatures;
    });
    status = 1;
  }

  abbrev pub proven : ℕ → List String → LiteRun
  proven amount signatures = record {
    written = some (record {
      success = true;
      error = none;
      mint = i.mint;
      buyer = buyer;
      program = i.program_id;
      token_amount = some amount;
      signatures = signatures;
    });
    status = 0;
  }

  abbrev pub create_params : CreateParams
  create_params = record {
    mint = i.mint;
    user = i.funder;
    creator = buyer;
    name = i.spike.token_name;
    symbol = i.spike.token_symbol;
    uri = i.spike.token_uri;
  }

  abbrev pub create_tx : Instruction → Instruction → List Instruction
  create_tx create fund =
      i.builders.set_compute_unit_limit 300000
      ∷ i.builders.set_compute_unit_price 50000
      ∷ create
      ∷ fund
      ∷ i.builders.create_associated_token_account i.funder buyer_ata buyer i.mint
      ∷ []

  abbrev pub lite_buy_params : Pubkey → Pubkey → LiteBuyParams
  lite_buy_params fee_recipient buyback = record {
    program_id = i.program_id;
    mint = i.mint;
    creator = buyer;
    fee_recipient = fee_recipient;
    buyback_fee_recipient = buyback;
    spendable_sol_in = pos i.spike.buy_sol_lamports;
    min_tokens_out = pos i.spike.min_tokens_out;
  }

  abbrev pub buy_tx : Instruction → List Instruction
  buy_tx buy =
      i.builders.set_compute_unit_limit 400000 ∷ i.builders.set_compute_unit_price 50000 ∷ buy ∷ []

  unfoldable pub lite_steps : Steps LiteRun LiteRun
  lite_steps = do
    balance ← call thrown i.balance
    -- 0.15e9
    _funded ← stop_if (ltb balance 150000000) thrown
    global_info ← call thrown i.global_data
    global_bytes ← present thrown global_info
    fees ← build thrown (decode_global_fees w global_bytes)
    buyback ← present thrown (get_elem? fees.buyback_fee_recipients 0)
    create ← build thrown (build_create_ix w create_params)
    fund ← build thrown (fund_ix w i.program_id i.funder (pos (i.spike.buy_sol_lamports + 5000000)))
    create_signature ← call thrown (i.create_signature (create_tx create fund))
    buy ← build thrown (buy_ix w (lite_buy_params (pick_fee_recipient fees) buyback))
    _blockhash ← call thrown i.blockhash
    simulation ← call thrown (i.simulation (buy_tx buy))
    _simulated ← no_error (λ error. failed error (create_signature ∷ [])) simulation
    buy_signature ← call thrown (i.buy_signature (buy_tx buy))
    amount ← call thrown (i.token_amount buyer_ata)
    let signatures = create_signature ∷ buy_signature ∷ []
    _held ← stop_if (amount == 0) (failed "zero balance after buy" signatures)
    ok (proven amount signatures)

  unfoldable pub main : LiteRun
  unfolding lite_steps
  main = finish lite_steps
