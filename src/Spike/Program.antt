-- ===== src/Spike/Program.antt =====
-- spikes/pda-buyer/src/spike-program.ts: the instructions for the Anchor program spike_pda_buyer.
pub mod Data
use batch_it_protocol.Prelude.{
  Bool, List, Option, Result, [], false, ok, some, take, true, ℕ, ◌>>=◌, ◌∷◌,
}
use batch_it_protocol.Prelude.Int.{ℤ}
use Prim.Native.String.{String, ◌++◌ as str_append}
use batch_it_protocol.Escrow.Types.{Pubkey}
use batch_it_protocol.Web3.{AccountMeta, Instruction, Web3}
use batch_it_protocol.Web3.Buffer.{RangeError, alloc, copy_to, set_byte, write_u64}
use batch_it_protocol.Web3.Reader.{flag}
use batch_it_protocol.Spike.Lite.{buyer_pda}
use batch_it_protocol.Spike.Pump.{
  account, associated_bonding_curve, bonding_curve_pda, bonding_curve_v2_pda, creator_vault_pda,
  event_authority_pda, fee_config_pda, global_pda, global_volume_accumulator_pda, or_default,
  pump_fee_program_id, pump_program_id, user_volume_accumulator_pda,
}

pub record PdaBuyParams : Type 0 where
  pub program_id : Pubkey
  pub mint : Pubkey
  pub creator : Pubkey
  pub fee_recipient : Pubkey
  pub buyback_fee_recipient : Pubkey
  pub spendable_sol_in : ℤ
  pub min_tokens_out : ℤ
  pub track_volume : Option Bool
  pub token_program : Option Pubkey

module _ (w : Web3) where
  unfoldable pub anchor_disc : String → List ℕ
  anchor_disc name = take 8 (w.sha256 (str_append "global:" name))

  unfoldable pub build_fund_buyer_ix : Pubkey → Pubkey → ℤ → Result RangeError Instruction
  build_fund_buyer_ix program_id payer lamports = do
    let (buyer, _) = buyer_pda w program_id
    bytes ← write_u64 lamports 8 (copy_to 0 (anchor_disc "fund_buyer") (alloc 16))
    ok (record {
      program_id = program_id;
      keys =
          account payer true true
          ∷ account buyer false true
          ∷ account w.system_program false false
          ∷ [];
      data_bytes = bytes;
    })

  unfoldable pub pda_buy_keys : PdaBuyParams → List AccountMeta
  pda_buy_keys p =
      let token_program = or_default p.token_program w.token_program in
      let (buyer, _) = buyer_pda w p.program_id in
      let bonding_curve = bonding_curve_pda w p.mint in
      account buyer false true
      ∷ account (global_pda w) false false
      ∷ account p.fee_recipient false true
      ∷ account p.mint false false
      ∷ account bonding_curve false true
      ∷ account (associated_bonding_curve w bonding_curve p.mint (some token_program)) false true
      ∷ account (w.associated_token_address p.mint buyer token_program) false true
      ∷ account (creator_vault_pda w p.creator) false true
      ∷ account (event_authority_pda w) false false
      ∷ account (pump_program_id w) false false
      ∷ account (global_volume_accumulator_pda w) false false
      ∷ account (user_volume_accumulator_pda w buyer) false true
      ∷ account (fee_config_pda w) false false
      ∷ account (pump_fee_program_id w) false false
      ∷ account w.system_program false false
      ∷ account token_program false false
      ∷ account w.associated_token_program false false
      ∷ account (bonding_curve_v2_pda w p.mint) false false
      ∷ account p.buyback_fee_recipient false true
      ∷ []

  unfoldable pub build_pda_buy_ix : PdaBuyParams → Result RangeError Instruction
  unfolding pda_buy_keys
  build_pda_buy_ix p = do
    spendable ←
        write_u64 p.spendable_sol_in 8
          (copy_to 0 (anchor_disc "buy_exact_sol_in_with_pda") (alloc 25))
    both ← write_u64 p.min_tokens_out 16 spendable
    ok (record {
      program_id = p.program_id;
      keys = pda_buy_keys p;
      data_bytes = set_byte 24 (flag (or_default p.track_volume false)) both;
    })

  unfoldable pub associated_user_ata : Pubkey → Pubkey → Option Pubkey → Pubkey
  associated_user_ata mint owner token_program =
      w.associated_token_address mint owner (or_default token_program w.token_program)
