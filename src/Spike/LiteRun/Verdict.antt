-- ===== src/Spike/LiteRun/Verdict.antt =====
-- What stands behind the result that a run through the lite program writes.
use batch_it_protocol.Prelude.{List, [], none, ok, ℕ, ◌++◌, ◌<◌, ◌≡◌, ◌∷◌}
use Prim.Native.String.{String}
use batch_it_protocol.Web3.{Instruction, Web3}
use batch_it_protocol.Spike.Lite.{LiteBuyParams, buy_ix}
use batch_it_protocol.Spike.LiteRun.{LiteInputs, LiteRun, buyer_ata, failed, proven, thrown}

module _ (w : Web3) (i : LiteInputs) where
  -- The results that a run may have: an exception, with nothing written; a failure; or a success, and
  -- then the transaction of a buy by the lite program for the buyer's own account was simulated without
  -- an error and confirmed, and the buyer's account then held a positive amount, the one reported.
  pub data Verdict : LiteRun → Type 0 where
    crashed : Verdict thrown
    refuted : (error : String) (signatures : List String) → Verdict (failed w i error signatures)
    shown :
        (p : LiteBuyParams) (buy : Instruction) (before : List Instruction)
        (create_signature buy_signature : String) (amount : ℕ)
        → p.program_id ≡ i.program_id
        → p.mint ≡ i.mint
        → buy_ix w p ≡ ok buy
        → i.simulation (before ++ (buy ∷ [])) ≡ ok none
        → i.buy_signature (before ++ (buy ∷ [])) ≡ ok buy_signature
        → i.token_amount (buyer_ata w i) ≡ ok amount
        → 0 < amount
        → Verdict (proven w i amount (create_signature ∷ buy_signature ∷ []))
