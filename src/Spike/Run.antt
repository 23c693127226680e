-- ===== src/Spike/Run.antt =====
-- spikes/pda-buyer/src/run.ts: the run that buys through the Anchor program, as a function from the
-- answers to its calls to the result that it writes, the verdict that it prints and its exit status.
-- A note is the template that the source fills in, with what fills it; other printed lines and time
-- stamps are left out.
pub mod Paths
pub mod Attempts
pub mod Verdict
pub mod Success
use batch_it_protocol.Prelude.{
  Bool, List, Option, Result, [], drop, err, false, get_elem?, if◌then◌else◌, leb, length, ltb, map,
  none, ok, some, true, ℕ, ◌&&◌, ◌+◌, ◌++◌, ◌-◌, ◌==◌, ◌>>=◌, ◌>>◌, require, ◌∷◌,
}
use batch_it_protocol.Prelude.Int.{pos}
use batch_it_protocol.Prelude.Texts.{same_text}
use Prim.Native.String.{String, ◌++◌ as str_append}
use batch_it_protocol.Escrow.Types.{Pubkey}
use batch_it_protocol.Orchestrator.Jito.{BundleResult}
use batch_it_protocol.Web3.{Instruction, Web3}
use batch_it_protocol.Web3.Buffer.{RangeError}
use batch_it_protocol.Spike.Fees.{decode_global_fees, pick_fee_recipient}
use batch_it_protocol.Spike.Lite.{buyer_pda}
use batch_it_protocol.Spike.LiteRun.{Builders, SpikeConfig}
use batch_it_protocol.Spike.Program.{
  PdaBuyParams, associated_user_ata, build_fund_buyer_ix, build_pda_buy_ix,
}
use batch_it_protocol.Spike.Pump.{
  CreateParams, bonding_curve_pda, build_create_ix, creator_vault_pda,
}

pub data Choice : Type 0 where
  option_a option_b unproven : Choice

pub data Note : Type 0 where
  insufficient : ℕ → Note
  already_deployed : Pubkey → Note
  program_upgrade program_deploy : String → Note
  skipping_upgrade : Note
  deploy_failed : String → Note
  fee_recipient : Pubkey → Note
  top_up : ℕ → ℕ → Note
  buyback : Pubkey → Note
  same_tx_sim_failed same_tx_failed pda_buy_sim_failed split_failed : String → Note
  log : String → Note
  proven_note bonding_curve creator_vault : Pubkey → Note
  jito_probe : BundleResult → Note
  jito_probe_error : String → Note
  proven_split failed_on_simulation redesign : Note

pub record SpikeResult : Type 0 where
  pub option : Choice
  pub success : Bool
  pub buyer : Pubkey
  pub mint : Option Pubkey
  pub signatures : List String
  pub notes : List Note
  pub error : Option String
  pub jito : Option BundleResult

abbrev pub add_notes : List Note → SpikeResult → SpikeResult
add_notes ns r = record r { notes = r.notes ++ ns }

abbrev pub add_signature : String → SpikeResult → SpikeResult
add_signature s r = record r { signatures = r.signatures ++ (s ∷ []) }

-- `printVerdict`
pub data Printed : Type 0 where
  nothing proven waiting not_proven : Printed

abbrev is_option_a : Choice → Bool
is_option_a option_a = true
is_option_a _ = false

abbrev is_unfunded : Option String → Bool
is_unfunded none = false
is_unfunded (some e) = same_text e "UNFUNDED"

unfoldable pub print_verdict : SpikeResult → Printed
print_verdict r =
    if r.success && is_option_a r.option
    then proven
    else if is_unfunded r.error
    then waiting
    else not_proven

pub record SpikeRun : Type 0 where
  pub written : Option SpikeResult
  pub printed : Printed
  pub status : ℕ

-- An exception with its message and the result so far, or the end of the run.
pub data Stop : Type 0 where
  thrown : String → SpikeResult → Stop
  exited : SpikeRun → Stop

abbrev pub ask : {A : Type 0} → SpikeResult → Result String A → Result Stop A
ask r (ok a) = ok a
ask r (err message) = err (thrown message r)

-- `slice(-n)`
abbrev pub last : ℕ → List String → List String
last n xs = drop (length xs - n) xs

-- The error of a simulation, as JSON, and its logs.
pub record Simulation : Type 0 where
  pub error : Option String
  pub logs : List String

-- What `ensureProgramDeployed` finds: whether the program's account is there and executable, whether
-- the program is built, whether FORCE_SPIKE_UPGRADE is 1, and what the command line tool prints.
pub record Deployment : Type 0 where
  pub executable : Result String Bool
  pub is_built : Bool
  pub missing_message : String
  pub force_upgrade : Bool
  pub tool_output : Result String String

unfoldable pub ensure_program_deployed : Pubkey → Deployment → Result String (List Note)
ensure_program_deployed program_id d = do
  executable ← d.executable
  require d.is_built d.missing_message
  if executable
      then (if d.force_upgrade
          then (d.tool_output >>= λ out.
              ok (already_deployed program_id ∷ program_upgrade out ∷ []))
          else ok (already_deployed program_id ∷ skipping_upgrade ∷ []))
      else (d.tool_output >>= λ out. ok (program_deploy out ∷ []))

-- The configuration and keys of a run, and an answer for each call that it makes.
pub record Inputs : Type 0 where
  pub spike : SpikeConfig
  pub builders : Builders
  pub program_id : Pubkey
  pub funder : Pubkey
  pub new_mint : Pubkey
  pub balance : Result String ℕ
  pub deployment : Deployment
  pub global_data : Result String (Option (List ℕ))
  pub buyer_balance : Result String ℕ
  -- create, fund, token account and buy in one transaction
  pub same_blockhash : Result String String
  pub same_simulation : List Instruction → Result String Simulation
  pub same_sent : List Instruction → Result String String
  pub same_confirmed : String → Result String String
  pub same_amount : Pubkey → Result String ℕ
  pub probe : Result String BundleResult
  -- one after the other
  pub create_sent : List Instruction → Result String String
  pub prepare_sent : List Instruction → Result String String
  pub split_blockhash : Result String String
  pub split_simulation : List Instruction → Result String Simulation
  pub split_sent : List Instruction → Result String String
  pub split_amount : Pubkey → Result String ℕ

abbrev pub ended : SpikeResult → ℕ → SpikeRun
ended r status = record { written = some r; printed = print_verdict r; status = status }

-- `if (sim.value.err)` on the path of one transaction.
abbrev pub same_clean : SpikeResult → Simulation → Result Stop (Unit {0})
same_clean r s = elim s.error [
  | none ↦ ok tt
  | some e ↦ err (
      thrown (str_append "same-tx simulation failed: " e)
        (add_notes (same_tx_sim_failed e ∷ map log (last 40 s.logs)) r))
]

-- And on the split path.
abbrev pub split_clean : SpikeResult → Simulation → Result Stop (Unit {0})
split_clean r s = elim s.error [
  | none ↦ ok tt
  | some e ↦ err (
      exited (
        ended
          (record (add_notes
            (pda_buy_sim_failed e ∷ (map log (last 50 s.logs) ++ (failed_on_simulation ∷ []))) r) {
              option = unproven;
              success = false;
              error = some "PDA_BUY_REJECTED";
            })
          1))
]

abbrev pub not_empty : SpikeResult → ℕ → Result Stop (Unit {0})
not_empty r n = if n == 0 then err (thrown "Buy appeared to land but ATA balance is 0" r) else ok tt

-- The try block around the probe of the block engine.
abbrev pub probed : Result String BundleResult → SpikeResult → SpikeResult
probed (ok answer) r = record (add_notes (jito_probe answer ∷ []) r) { jito = some answer }
probed (err message) r = add_notes (jito_probe_error message ∷ []) r
