-- ===== src/Localnet/CompleteBuy.antt =====
-- tests/localnet/src/complete-buy-ix.ts, with the addresses of anchor-ix.ts that it uses, and the accounts that
-- `CompleteBuy` of programs/batchit/src/instructions/complete_buy.rs names, in its order. The addresses of
-- pump are derived there as spikes/pda-buyer/src/pump.ts derives them.
pub mod Relay
use batch_it_protocol.Prelude.{List, Option, Result, [], false, none, ok, some, true, ℕ, ◌>>=◌, ◌∷◌}
use batch_it_protocol.Prelude.Int.{ℤ}
use batch_it_protocol.Escrow.Pump.{PumpAccounts}
use batch_it_protocol.Escrow.Types.{Pubkey}
use batch_it_protocol.Web3.{AccountMeta, Instruction, Web3, to_buffer}
use batch_it_protocol.Web3.Buffer.{RangeError, alloc, copy_to, write_u64}
use batch_it_protocol.Spike.Lite.{AccountInfo}
use batch_it_protocol.Spike.Program.{anchor_disc}
use batch_it_protocol.Spike.Pump.{
  account, bonding_curve_pda, bonding_curve_v2_pda, creator_vault_pda, event_authority_pda,
  fee_config_pda, global_pda, global_volume_accumulator_pda, pump_fee_program_id, pump_program_id,
  user_volume_accumulator_pda,
}

pub record CompleteBuyParams : Type 0 where
  pub caller : Pubkey
  pub creator : Pubkey
  pub seed : ℤ
  pub mint : Pubkey
  pub fee_recipient : Pubkey
  pub buyback_fee_recipient : Pubkey
  pub min_tokens_out : ℤ

module _ (w : Web3) where
  abbrev pub batchit_program_id : Pubkey
  batchit_program_id = w.from_base58 "4wnT3AC6ZM6hCUL95WdAR6i7aTsefmRqZ3cZGbvWnrMv"

  unfoldable pub pool_pda : Pubkey → ℤ → Result RangeError Pubkey
  pool_pda creator seed = do
    seed_bytes ← write_u64 seed 0 (alloc 8)
    ok
        (w.find_program_address (w.utf8 "pool" ∷ to_buffer creator ∷ seed_bytes ∷ [])
          batchit_program_id).0

  unfoldable pub pool_buyer_pda : Pubkey → Pubkey
  pool_buyer_pda pool =
      (w.find_program_address (w.utf8 "buyer" ∷ to_buffer pool ∷ []) batchit_program_id).0

  unfoldable pub complete_buy_keys : CompleteBuyParams → Pubkey → List AccountMeta
  complete_buy_keys p pool =
      let buyer = pool_buyer_pda pool in
      let bonding_curve = bonding_curve_pda w p.mint in
      account p.caller true false
      ∷ account pool false true
      ∷ account buyer false true
      ∷ account p.mint false false
      ∷ account (global_pda w) false false
      ∷ account p.fee_recipient false true
      ∷ account bonding_curve false true
      ∷ account (w.associated_token_address p.mint bonding_curve w.token_program) false true
      ∷ account (w.associated_token_address p.mint buyer w.token_program) false true
      ∷ account (creator_vault_pda w buyer) false true
      ∷ account (event_authority_pda w) false false
      ∷ account (pump_program_id w) false false
      ∷ account (global_volume_accumulator_pda w) false false
      ∷ account (user_volume_accumulator_pda w buyer) false true
      ∷ account (fee_config_pda w) false false
      ∷ account (pump_fee_program_id w) false false
      ∷ account (bonding_curve_v2_pda w p.mint) false false
      ∷ account p.buyback_fee_recipient false true
      ∷ account w.token_program false false
      ∷ account w.system_program false false
      ∷ []

  unfoldable pub complete_buy_ix : CompleteBuyParams → Result RangeError Instruction
  complete_buy_ix p = do
    pool ← pool_pda p.creator p.seed
    bytes ← write_u64 p.min_tokens_out 8 (copy_to 0 (anchor_disc w "complete_buy") (alloc 16))
    ok (record {
      program_id = batchit_program_id;
      keys = complete_buy_keys p pool;
      data_bytes = bytes;
    })

-- The accounts that the handler passes to the call of pump, out of those of the instruction: there must
-- be as many as the structure has fields.
unfoldable pub take_complete_buy : List AccountInfo → Option PumpAccounts
take_complete_buy
      (caller ∷ pool ∷ buyer ∷ mint ∷ global ∷ fee_recipient ∷ bonding_curve
        ∷ associated_bonding_curve ∷ associated_user ∷ creator_vault ∷ event_authority
        ∷ pump_program ∷ global_volume_accumulator ∷ user_volume_accumulator ∷ fee_config
        ∷ fee_program ∷ bonding_curve_v2 ∷ buyback_fee_recipient ∷ token_program ∷ system_program
        ∷ rest) =
    some (record {
      global = global;
      fee_recipient = fee_recipient;
      mint = mint;
      bonding_curve = bonding_curve;
      associated_bonding_curve = associated_bonding_curve;
      associated_user = associated_user;
      buyer = buyer;
      system_program = system_program;
      token_program = token_program;
      creator_vault = creator_vault;
      event_authority = event_authority;
      pump_program = pump_program;
      global_volume_accumulator = global_volume_accumulator;
      user_volume_accumulator = user_volume_accumulator;
      fee_config = fee_config;
      fee_program = fee_program;
      bonding_curve_v2 = bonding_curve_v2;
      buyback_fee_recipient = buyback_fee_recipient;
    })
take_complete_buy _ = none
