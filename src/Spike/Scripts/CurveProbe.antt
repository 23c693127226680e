-- ===== src/Spike/Scripts/CurveProbe.antt =====
-- spikes/pda-buyer/src/probe-bc-v2.ts: the script that looks for the seed of pump's second curve account.
use batch_it_protocol.Prelude.{
  Bool, List, true, false, err, Option, Result, [], if◌then◌else◌, leb, ok, refl, ℕ, ◌&&◌, ◌≡◌, ◌∷◌,
}
use Prim.Native.String.{String}
use batch_it_protocol.Escrow.Types.{Pubkey}
use batch_it_protocol.Web3.{Web3, to_buffer}
use batch_it_protocol.Spike.Pump.{bonding_curve_v2_pda, pump_pda, pump_program_id}

pub record IdlError : Type 0 where
  pub code : ℕ
  pub name : String

-- `errors.filter((e) => e.code >= 6060 && e.code <= 6085)`
unfoldable pub fee_errors : List IdlError → List IdlError
fee_errors [] = []
fee_errors (e ∷ errors) =
    let rest = fee_errors errors in if leb 6060 e.code && leb e.code 6085 then e ∷ rest else rest

-- The address that a seed gives. The seeds are an argument of the loop: one of the source's five ends in a
-- zero character.
unfoldable pub curve_seed_pda : Web3 → Pubkey → String → Pubkey
curve_seed_pda w mint seed =
    (w.find_program_address (w.utf8 seed ∷ to_buffer mint ∷ []) (pump_program_id w)).0

pub record CurveLine : Type 0 where
  pub seed : String
  pub address : Pubkey
  -- the size of the account, if it is there
  pub size : Option ℕ

module _ (w : Web3) (mint : Pubkey) (size_of : Pubkey → Result String (Option ℕ)) where
  -- The loop over the candidates, in their order: the lines printed, and whether it came to the end. A
  -- call that throws ends it.
  unfoldable pub probe_seeds : List String → List CurveLine × Bool
  unfolding curve_seed_pda
  probe_seeds [] = ([], true)
  probe_seeds (seed ∷ seeds) =
      let (lines, done) = probe_seeds seeds in
      elim (size_of (curve_seed_pda w mint seed)) [
        | ok size ↦ (
          record { seed = seed; address = curve_seed_pda w mint seed; size = size } ∷ lines,
          done,
        )
        | err message ↦ ([], false)
      ]

-- The first candidate is the seed that the clients use for the account.
pub curve_seed_pda-client :
    (w : Web3) (mint : Pubkey)
    → curve_seed_pda w mint "bonding-curve-v2" ≡ bonding_curve_v2_pda w mint
unfolding curve_seed_pda bonding_curve_v2_pda pump_pda
curve_seed_pda-client w mint = refl
