-- ===== src/Spike/Scripts/Status.antt =====
-- spikes/pda-buyer/src/status.ts: the lines that it prints, from the answers to its five calls.
use batch_it_protocol.Prelude.{
  Bool, List, Option, Result, [], err, false, none, ok, some, true, ℕ, ◌>>=◌, ◌∷◌,
}
use Prim.Native.String.{String}
use batch_it_protocol.Escrow.Types.{Pubkey}
use batch_it_protocol.Web3.{Web3}
use batch_it_protocol.Spike.Lite.{buyer_pda}
use batch_it_protocol.Spike.Pump.{global_pda, pump_program_id}

-- The answers that the script waits for together: two balances, and for three accounts whether they are
-- there and executable.
pub record StatusCalls : Type 0 where
  pub rpc_url : String
  pub funder : Pubkey
  pub program_id : Pubkey
  pub get_balance : Pubkey → Result String ℕ
  pub is_executable : Pubkey → Result String (Option Bool)

-- A line names an account and what was found; a balance is in lamports, and printed in SOL.
pub data StatusLine : Type 0 where
  rpc : String → StatusLine
  funder_line buyer_line : Pubkey → ℕ → StatusLine
  program_line pump_line global_line : Pubkey → Bool → StatusLine
  fund_hint : Pubkey → StatusLine

-- `account?.executable`
abbrev pub executable : Option Bool → Bool
executable none = false
executable (some b) = b

abbrev pub is_there : Option Bool → Bool
is_there none = false
is_there (some _) = true

module _ (w : Web3) (calls : StatusCalls) where
  unfoldable pub status_lines : Result String (List StatusLine)
  status_lines = do
    let (buyer, _) = buyer_pda w calls.program_id
    funder_balance ← calls.get_balance calls.funder
    buyer_balance ← calls.get_balance buyer
    program ← calls.is_executable calls.program_id
    pump ← calls.is_executable (pump_program_id w)
    global ← calls.is_executable (global_pda w)
    ok (
        rpc calls.rpc_url
        ∷ funder_line calls.funder funder_balance
        ∷ buyer_line buyer buyer_balance
        ∷ program_line calls.program_id (executable program)
        ∷ pump_line (pump_program_id w) (executable pump)
        ∷ global_line (global_pda w) (is_there global)
        ∷ fund_hint calls.funder
        ∷ [])

  -- Nothing is printed but the exception when a call throws, and the exit status is 0 in any case.
  unfoldable pub status : List StatusLine
  unfolding status_lines
  status = elim status_lines [ ok lines ↦ lines | err message ↦ [] ]
