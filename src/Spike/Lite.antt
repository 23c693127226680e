-- ===== src/Spike/Lite.antt =====
-- spikes/pda-buyer/src/run-lite-a.ts: the instructions for the lite program, and that program
-- (programs/spike_pda_buyer_lite/src/lib.rs), which signs the buy with its own address.
pub mod Data
pub mod Relay
pub mod Safety
use batch_it_protocol.Prelude.{
  Bool, List, Option, Result, [], drop, err, false, if◌then◌else◌, leb, length, ltb, none, not, ok,
  require, some, take, true, ℕ, ◌++◌, ◌==◌, ◌>>=◌, ◌>>◌, ◌∷◌,
}
use batch_it_protocol.Prelude.Bytes.{from_le_bytes, le_bytes}
use batch_it_protocol.Prelude.Int.{ℤ}
use batch_it_protocol.Escrow.Types.{Pubkey}
use batch_it_protocol.Web3.{AccountMeta, Instruction, Web3}
use batch_it_protocol.Web3.Buffer.{RangeError, alloc, set_byte, write_u64}
use batch_it_protocol.Web3.Reader.{flag}
use batch_it_protocol.Spike.Pump.{
  account, associated_bonding_curve, bonding_curve_pda, bonding_curve_v2_pda,
  buy_exact_sol_in_discriminator, creator_vault_pda, event_authority_pda, fee_config_pda,
  global_pda, global_volume_accumulator_pda, pump_fee_program_id, pump_program_id,
  user_volume_accumulator_pda,
}

pub record LiteBuyParams : Type 0 where
  pub program_id : Pubkey
  pub mint : Pubkey
  pub creator : Pubkey
  pub fee_recipient : Pubkey
  pub buyback_fee_recipient : Pubkey
  pub spendable_sol_in : ℤ
  pub min_tokens_out : ℤ

module _ (w : Web3) where
  unfoldable pub buyer_pda : Pubkey → Pubkey × ℕ
  buyer_pda program_id = w.find_program_address (w.utf8 "buyer" ∷ []) program_id

  unfoldable pub fund_ix : Pubkey → Pubkey → ℤ → Result RangeError Instruction
  fund_ix program_id payer lamports = do
    let (buyer, _) = buyer_pda program_id
    bytes ← write_u64 lamports 1 (set_byte 0 0 (alloc 9))
    ok (record {
      program_id = program_id;
      keys =
          account payer true true
          ∷ account buyer false true
          ∷ account w.system_program false false
          ∷ [];
      data_bytes = bytes;
    })

  unfoldable pub lite_buy_keys : LiteBuyParams → List AccountMeta
  lite_buy_keys p =
      let (buyer, _) = buyer_pda p.program_id in
      let bonding_curve = bonding_curve_pda w p.mint in
      account buyer false true
      ∷ account (global_pda w) false false
      ∷ account p.fee_recipient false true
      ∷ account p.mint false false
      ∷ account bonding_curve false true
      ∷ account (associated_bonding_curve w bonding_curve p.mint none) false true
      ∷ account (w.associated_token_address p.mint buyer w.token_program) false true
      ∷ account (creator_vault_pda w p.creator) false true
      ∷ account (event_authority_pda w) false false
      ∷ account (pump_program_id w) false false
      ∷ account (global_volume_accumulator_pda w) false false
      ∷ account (user_volume_accumulator_pda w buyer) false true
      ∷ account (fee_config_pda w) false false
      ∷ account (pump_fee_program_id w) false false
      ∷ account w.system_program false false
      ∷ account w.token_program false false
      ∷ account (bonding_curve_v2_pda w p.mint) false false
      ∷ account p.buyback_fee_recipient false true
      ∷ []

  unfoldable pub buy_ix : LiteBuyParams → Result RangeError Instruction
  unfolding lite_buy_keys
  buy_ix p = do
    spendable ← write_u64 p.spendable_sol_in 1 (set_byte 0 1 (alloc 18))
    both ← write_u64 p.min_tokens_out 9 spendable
    ok (record {
      program_id = p.program_id;
      keys = lite_buy_keys p;
      data_bytes = set_byte 17 0 both;
    })

pub data ProgramError : Type 0 where
  invalid_instruction_data invalid_argument not_enough_account_keys : ProgramError
  missing_required_signature invalid_seeds incorrect_program_id : ProgramError
  invoke_failed : ProgramError

pub record AccountInfo : Type 0 where
  pub key : Pubkey
  pub is_signer : Bool
  pub is_writable : Bool

-- `next_account_info`: the first account, and those after it.
abbrev pub next_account : List AccountInfo → Result ProgramError (AccountInfo × List AccountInfo)
next_account [] = err not_enough_account_keys
next_account (a ∷ accounts) = ok (a, accounts)

-- `data[16] != 0`, where there is such a byte
abbrev nonzero_first : List ℕ → Bool
nonzero_first [] = false
nonzero_first (b ∷ bytes) = not (b == 0)

-- The arguments of the buy, out of the data behind the tag.
unfoldable pub parse_buy : List ℕ → Result ProgramError (ℕ × ℕ × Bool)
parse_buy bytes = do
  require (leb 17 (length bytes)) invalid_instruction_data
  let spendable_sol_in = from_le_bytes (take 8 bytes)
  require (not (spendable_sol_in == 0)) invalid_argument
  ok (spendable_sol_in, from_le_bytes (take 8 (drop 8 bytes)), nonzero_first (drop 16 bytes))

-- What the program calls of Solana: `invoke_signed` with an instruction, the accounts and the seeds of
-- its own address, which returns what the call has made of the chain, and the instruction that
-- `system_instruction::transfer` builds.
pub record Solana {ℓ} (S : Type ℓ) : Type ℓ where
  pub invoke_signed : Instruction → List AccountInfo → List (List ℕ) → Result ProgramError S
  pub transfer : Pubkey → Pubkey → ℕ → Instruction

module _ {ℓ} {S : Type ℓ} (w : Web3) (s : Solana S) where
  unfoldable pub fund_buyer : Pubkey → List AccountInfo → List ℕ → Result ProgramError S
  fund_buyer program_id accounts bytes = do
    require (leb 8 (length bytes)) invalid_instruction_data
    let lamports = from_le_bytes (take 8 bytes)
    require (not (lamports == 0)) invalid_argument
    (payer, accounts) ← next_account accounts
    (buyer, accounts) ← next_account accounts
    (system, accounts) ← next_account accounts
    require payer.is_signer missing_required_signature
    require (buyer.key == (buyer_pda w program_id).0) invalid_seeds
    require (system.key == w.system_program) incorrect_program_id
    s.invoke_signed (s.transfer payer.key buyer.key lamports) (payer ∷ buyer ∷ system ∷ []) []

  unfoldable pub buy_exact_sol_in_with_pda :
      Pubkey → List AccountInfo → List ℕ → Result ProgramError S
  buy_exact_sol_in_with_pda program_id accounts bytes = do
    (spendable_sol_in, min_tokens_out, track_volume) ← parse_buy bytes
    (buyer, accounts) ← next_account accounts
    (global, accounts) ← next_account accounts
    (fee_recipient, accounts) ← next_account accounts
    (mint, accounts) ← next_account accounts
    (bonding_curve, accounts) ← next_account accounts
    (associated_bonding_curve, accounts) ← next_account accounts
    (associated_user, accounts) ← next_account accounts
    (creator_vault, accounts) ← next_account accounts
    (event_authority, accounts) ← next_account accounts
    (pump_program, accounts) ← next_account accounts
    (global_volume_accumulator, accounts) ← next_account accounts
    (user_volume_accumulator, accounts) ← next_account accounts
    (fee_config, accounts) ← next_account accounts
    (fee_program, accounts) ← next_account accounts
    (system, accounts) ← next_account accounts
    (token_program, accounts) ← next_account accounts
    (bonding_curve_v2, accounts) ← next_account accounts
    (buyback_fee_recipient, accounts) ← next_account accounts
    let (expected, bump) = buyer_pda w program_id
    require (buyer.key == expected) invalid_seeds
    require (pump_program.key == pump_program_id w) incorrect_program_id
    let ix : Instruction = record {
      program_id = pump_program_id w;
      keys =
          account global.key false false
          ∷ account fee_recipient.key false true
          ∷ account mint.key false false
          ∷ account bonding_curve.key false true
          ∷ account associated_bonding_curve.key false true
          ∷ account associated_user.key false true
          ∷ account buyer.key true true
          ∷ account system.key false false
          ∷ account token_program.key false false
          ∷ account creator_vault.key false true
          ∷ account event_authority.key false false
          ∷ account pump_program.key false false
          ∷ account global_volume_accumulator.key false false
          ∷ account user_volume_accumulator.key false true
          ∷ account fee_config.key false false
          ∷ account fee_program.key false false
          ∷ account bonding_curve_v2.key false false
          ∷ account buyback_fee_recipient.key false true
          ∷ [];
      data_bytes =
          buy_exact_sol_in_discriminator
          ++ (le_bytes 8 spendable_sol_in
              ++ (le_bytes 8 min_tokens_out ++ (flag track_volume ∷ [])));
    }
    let infos =
        global ∷ fee_recipient ∷ mint ∷ bonding_curve ∷ associated_bonding_curve ∷ associated_user
        ∷ buyer ∷ system ∷ token_program ∷ creator_vault ∷ event_authority ∷ pump_program
        ∷ global_volume_accumulator ∷ user_volume_accumulator ∷ fee_config ∷ fee_program
        ∷ bonding_curve_v2 ∷ buyback_fee_recipient ∷ []
    s.invoke_signed ix infos (w.utf8 "buyer" ∷ (bump ∷ []) ∷ [])

  unfoldable pub process_instruction : Pubkey → List AccountInfo → List ℕ → Result ProgramError S
  unfolding fund_buyer buy_exact_sol_in_with_pda
  process_instruction program_id accounts [] = err invalid_instruction_data
  process_instruction program_id accounts (tag ∷ bytes) =
      if tag == 0
      then fund_buyer program_id accounts bytes
      else if tag == 1
      then buy_exact_sol_in_with_pda program_id accounts bytes
      else err invalid_instruction_data
