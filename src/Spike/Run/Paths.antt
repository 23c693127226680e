-- ===== src/Spike/Run/Paths.antt =====
-- The two ways of spikes/pda-buyer/src/run.ts to buy, and the run that tries them in turn.
use batch_it_protocol.Prelude.{
  List, Option, Result, [], err, false, get_elem?, if◌then◌else◌, leb, ltb, none, ok, some, true, ℕ,
  ◌+◌, ◌-◌, ◌>>=◌, ◌∷◌,
}
use batch_it_protocol.Prelude.Int.{pos}
use Prim.Native.String.{String}
use batch_it_protocol.Escrow.Types.{Pubkey}
use batch_it_protocol.Web3.{Instruction, Web3}
use batch_it_protocol.Web3.Buffer.{RangeError}
use batch_it_protocol.Spike.Fees.{decode_global_fees, pick_fee_recipient}
use batch_it_protocol.Spike.Lite.{buyer_pda}
use batch_it_protocol.Spike.Program.{
  PdaBuyParams, associated_user_ata, build_fund_buyer_ix, build_pda_buy_ix,
}
use batch_it_protocol.Spike.Pump.{
  CreateParams, bonding_curve_pda, build_create_ix, creator_vault_pda,
}
use batch_it_protocol.Spike.Run.{
  Inputs, SpikeResult, SpikeRun, Stop, add_notes, add_signature, ask, bonding_curve, buyback,
  creator_vault, deploy_failed, ensure_program_deployed, Note, ended, exited, fee_recipient,
  insufficient, not_empty, nothing, option_a, probed, proven_note, proven_split, redesign,
  same_clean, same_tx_failed, split_clean, split_failed, thrown, top_up, unproven,
}

-- The instructions that both ways send.
pub record Parts : Type 0 where
  pub create : Instruction
  pub fund : Option Instruction
  pub create_ata : Instruction
  pub buy : Instruction

abbrev optional : Option Instruction → List Instruction → List Instruction
optional none txs = txs
optional (some ix) txs = ix ∷ txs

-- What a call of a builder or of the node gives; an exception outside every `try` writes nothing.
abbrev pub crash : SpikeRun
crash = record { written = none; printed = nothing; status = 1 }

abbrev pub or_crash : {E A : Type 0} → Result E A → Result SpikeRun A
or_crash (ok a) = ok a
or_crash (err e) = err crash

abbrev pub found : {A : Type 0} → Option A → Result SpikeRun A
found (some a) = ok a
found none = err crash

abbrev pub run_of : Result SpikeRun SpikeRun → SpikeRun
run_of (ok r) = r
run_of (err r) = r

module _ (w : Web3) (i : Inputs) where
  abbrev pub buyer : Pubkey
  buyer = (buyer_pda w i.program_id).0

  abbrev pub buyer_ata : Pubkey
  buyer_ata = associated_user_ata w i.new_mint buyer (some w.token_program)

  abbrev pub same_tx : Parts → List Instruction
  same_tx p =
      i.builders.set_compute_unit_limit 400000
      ∷ i.builders.set_compute_unit_price 50000
      ∷ p.create
      ∷ optional p.fund (p.create_ata ∷ p.buy ∷ [])

  abbrev pub split_create_tx : Parts → List Instruction
  split_create_tx p =
      i.builders.set_compute_unit_limit 400000
      ∷ i.builders.set_compute_unit_price 50000
      ∷ p.create
      ∷ []

  abbrev pub split_prepare_tx : Parts → List Instruction
  split_prepare_tx p = optional p.fund (p.create_ata ∷ [])

  abbrev pub split_buy_tx : Parts → List Instruction
  split_buy_tx p = i.builders.set_compute_unit_limit 400000 ∷ p.buy ∷ []

  -- The first `try`: the result that it writes, or the exception.
  unfoldable pub try_same_tx : Parts → SpikeResult → Result Stop SpikeResult
  try_same_tx p r = do
    _blockhash ← ask r i.same_blockhash
    simulation ← ask r (i.same_simulation (same_tx p))
    _clean ← same_clean r simulation
    signature ← ask r (i.same_sent (same_tx p))
    _confirmed ← ask r (i.same_confirmed signature)
    let landed = add_signature signature r
    amount ← ask landed (i.same_amount buyer_ata)
    _held ← not_empty landed amount
    let shown : SpikeResult =
        record (add_notes
          (proven_note buyer
            ∷ bonding_curve (bonding_curve_pda w i.new_mint)
            ∷ creator_vault (creator_vault_pda w buyer)
            ∷ [])
          landed) { option = option_a; success = true }
    ok (probed i.probe shown)

  -- The second.
  unfoldable pub try_split : Parts → SpikeResult → Result Stop SpikeResult
  try_split p r = do
    create_signature ← ask r (i.create_sent (split_create_tx p))
    let created = add_signature create_signature r
    prepare_signature ← ask created (i.prepare_sent (split_prepare_tx p))
    let prepared = add_signature prepare_signature created
    _blockhash ← ask prepared i.split_blockhash
    simulation ← ask prepared (i.split_simulation (split_buy_tx p))
    _clean ← split_clean prepared simulation
    signature ← ask prepared (i.split_sent (split_buy_tx p))
    let landed = add_signature signature prepared
    -- the amount is printed, and not looked at
    _amount ← ask landed (i.split_amount buyer_ata)
    ok (record (add_notes (proven_split ∷ []) landed) { option = option_a; success = true })

  abbrev pub after_split : Result Stop SpikeResult → SpikeRun
  after_split (ok r) = ended r 0
  after_split (err (thrown message r)) =
      ended
        (record (add_notes (split_failed message ∷ redesign ∷ []) r) {
          error = some message;
          success = false;
          option = unproven;
        })
        1
  after_split (err (exited run)) = run

  abbrev pub after_same_tx : Parts → Result Stop SpikeResult → SpikeRun
  after_same_tx p (ok r) = ended r 0
  after_same_tx p (err (thrown message r)) =
      after_split (try_split p (add_notes (same_tx_failed message ∷ []) r))
  after_same_tx p (err (exited run)) = run

  abbrev pub first_result : SpikeResult
  first_result = record {
    option = unproven;
    success = false;
    buyer = buyer;
    mint = none;
    signatures = [];
    notes = [];
    error = none;
    jito = none;
  }

  abbrev pub funded : ℕ → Result SpikeRun (Unit {0})
  funded balance =
      if ltb balance 500000000
      then err (record {
        written = some (record (add_notes (insufficient balance ∷ []) first_result) {
          error = some "UNFUNDED";
        });
        printed = nothing;
        status = 2;
      })
      else ok tt

  -- The first `catch`: the result is written, and the exception goes on.
  abbrev pub deploy : Result String (List Note) → Result SpikeRun SpikeResult
  deploy (ok notes) = ok (add_notes (notes) first_result)
  deploy (err message) = err (record {
    written =
        some
          (record (add_notes (deploy_failed message ∷ []) first_result) { error = some message });
    printed = nothing;
    status = 1;
  })

  abbrev pub create_params : CreateParams
  create_params = record {
    mint = i.new_mint;
    user = i.funder;
    creator = buyer;
    name = i.spike.token_name;
    symbol = i.spike.token_symbol;
    uri = i.spike.token_uri;
  }

  -- What the buyer's account lacks of the amount to spend and the rent.
  abbrev pub missing : ℕ → ℕ
  missing balance =
      let need = i.spike.buy_sol_lamports + 5000000 in
      if leb need balance then 0 else need - balance

  abbrev pub fund_by : ℕ → Result RangeError (Option Instruction)
  fund_by amount =
      if ltb 0 amount
      then (build_fund_buyer_ix w i.program_id i.funder (pos amount) >>= λ ix. ok (some ix))
      else ok none

  abbrev pub buy_params : Pubkey → Pubkey → PdaBuyParams
  buy_params recipient buyback_recipient = record {
    program_id = i.program_id;
    mint = i.new_mint;
    creator = buyer;
    fee_recipient = recipient;
    buyback_fee_recipient = buyback_recipient;
    spendable_sol_in = pos i.spike.buy_sol_lamports;
    min_tokens_out = pos i.spike.min_tokens_out;
    track_volume = some false;
    token_program = some w.token_program;
  }

  unfoldable pub steps : Result SpikeRun SpikeRun
  steps = do
    balance ← or_crash i.balance
    _funded ← funded balance
    deployed ← deploy (ensure_program_deployed i.program_id i.deployment)
    global_info ← or_crash i.global_data
    global_bytes ← found global_info
    fees ← or_crash (decode_global_fees w global_bytes)
    create ← or_crash (build_create_ix w create_params)
    buyer_balance ← or_crash i.buyer_balance
    fund ← or_crash (fund_by (missing buyer_balance))
    buyback_recipient ← found (get_elem? fees.buyback_fee_recipients 0)
    buy ← or_crash (build_pda_buy_ix w (buy_params (pick_fee_recipient fees) buyback_recipient))
    let started : SpikeResult =
        record (add_notes
          (fee_recipient (pick_fee_recipient fees)
            ∷ top_up buyer_balance (missing buyer_balance)
            ∷ buyback buyback_recipient
            ∷ [])
          deployed) { mint = some i.new_mint }
    let parts : Parts = record {
      create = create;
      fund = fund;
      create_ata = i.builders.create_associated_token_account i.funder buyer_ata buyer i.new_mint;
      buy = buy;
    }
    ok (after_same_tx parts (try_same_tx parts started))

  unfoldable pub main : SpikeRun
  unfolding steps try_same_tx try_split
  main = run_of steps
