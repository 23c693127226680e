-- ===== src/Spike/Pump.antt =====
-- spikes/pda-buyer/src/pump.ts: pump's addresses and the instructions that create a token and buy it.
pub mod Create
pub mod Buy
use batch_it_protocol.Prelude.{
  Bool, List, Option, Result, [], false, length, none, ok, some, true, ℕ, ◌++◌, ◌>>=◌, ◌∷◌,
}
use batch_it_protocol.Prelude.Int.{ℤ}
use Prim.Native.String.{String}
use batch_it_protocol.Escrow.Types.{Pubkey}
use batch_it_protocol.Web3.{AccountMeta, Instruction, Web3, to_buffer}
use batch_it_protocol.Web3.Buffer.{RangeError, alloc, write_u32, write_u64}
use batch_it_protocol.Web3.Reader.{flag}

-- `a ?? b`
abbrev pub or_default {ℓ} : {A : Type ℓ} → Option A → A → A
or_default none b = b
or_default (some a) b = a

-- `{ pubkey, isSigner, isWritable }`
abbrev pub account : Pubkey → Bool → Bool → AccountMeta
account key is_signer is_writable = record {
  pubkey = key;
  is_signer = is_signer;
  is_writable = is_writable;
}

abbrev pub create_discriminator : List ℕ
create_discriminator = 24 ∷ 30 ∷ 200 ∷ 40 ∷ 5 ∷ 28 ∷ 7 ∷ 119 ∷ []

abbrev pub buy_exact_sol_in_discriminator : List ℕ
buy_exact_sol_in_discriminator = 56 ∷ 252 ∷ 116 ∷ 8 ∷ 158 ∷ 223 ∷ 205 ∷ 95 ∷ []

pub record CreateParams : Type 0 where
  pub mint : Pubkey
  pub user : Pubkey
  pub creator : Pubkey
  pub name : String
  pub symbol : String
  pub uri : String

pub record BuyParams : Type 0 where
  pub user : Pubkey
  pub mint : Pubkey
  pub creator : Pubkey
  pub spendable_sol_in : ℤ
  pub min_tokens_out : ℤ
  pub fee_recipient : Pubkey
  pub buyback_fee_recipient : Option Pubkey
  pub token_program : Option Pubkey
  pub track_volume : Option Bool

module _ (w : Web3) where
  unfoldable pub pump_program_id : Pubkey
  pump_program_id = w.from_base58 "6EF8rrecthR5Dkzon8Nwu78hRvfCKubJ14M5uBEwF6P"

  unfoldable pub pump_fee_program_id : Pubkey
  pump_fee_program_id = w.from_base58 "pfeeUxB6jkeY1Hxd7CsFCAjcbHA9rWtchMGdZ6VojVZ"

  unfoldable pub mpl_token_metadata : Pubkey
  mpl_token_metadata = w.from_base58 "metaqbxxUerdq28cj1RbAWkYQm3ybzjb6a8bt518x1s"

  unfoldable pub pump_pda : List (List ℕ) → Pubkey × ℕ
  pump_pda seeds = w.find_program_address seeds pump_program_id

  unfoldable pub global_pda : Pubkey
  global_pda = (pump_pda (w.utf8 "global" ∷ [])).0

  unfoldable pub event_authority_pda : Pubkey
  event_authority_pda = (pump_pda (w.utf8 "__event_authority" ∷ [])).0

  unfoldable pub mint_authority_pda : Pubkey
  mint_authority_pda = (pump_pda (w.utf8 "mint-authority" ∷ [])).0

  unfoldable pub bonding_curve_pda : Pubkey → Pubkey
  bonding_curve_pda mint = (pump_pda (w.utf8 "bonding-curve" ∷ to_buffer mint ∷ [])).0

  unfoldable pub bonding_curve_v2_pda : Pubkey → Pubkey
  bonding_curve_v2_pda mint = (pump_pda (w.utf8 "bonding-curve-v2" ∷ to_buffer mint ∷ [])).0

  unfoldable pub creator_vault_pda : Pubkey → Pubkey
  creator_vault_pda creator = (pump_pda (w.utf8 "creator-vault" ∷ to_buffer creator ∷ [])).0

  unfoldable pub global_volume_accumulator_pda : Pubkey
  global_volume_accumulator_pda = (pump_pda (w.utf8 "global_volume_accumulator" ∷ [])).0

  unfoldable pub user_volume_accumulator_pda : Pubkey → Pubkey
  user_volume_accumulator_pda user =
      (pump_pda (w.utf8 "user_volume_accumulator" ∷ to_buffer user ∷ [])).0

  unfoldable pub fee_config_pda : Pubkey
  fee_config_pda =
      (w.find_program_address (w.utf8 "fee_config" ∷ to_buffer pump_program_id ∷ [])
        pump_fee_program_id).0

  unfoldable pub associated_bonding_curve : Pubkey → Pubkey → Option Pubkey → Pubkey
  associated_bonding_curve bonding_curve mint token_program =
      w.associated_token_address mint bonding_curve (or_default token_program w.token_program)

  unfoldable pub metadata_pda : Pubkey → Pubkey
  metadata_pda mint =
      (w.find_program_address
        (w.utf8 "metadata" ∷ to_buffer mpl_token_metadata ∷ to_buffer mint ∷ [])
        mpl_token_metadata).0

  unfoldable pub encode_string : String → Result RangeError (List ℕ)
  encode_string s = do let b = w.utf8 s; len ← write_u32 (length b) 0 (alloc 4); ok (len ++ b)

  -- The accounts of the creation, in the order of the IDL.
  unfoldable pub create_keys : CreateParams → List AccountMeta
  create_keys p =
      let bonding_curve = bonding_curve_pda p.mint in
      account p.mint true true
      ∷ account mint_authority_pda false false
      ∷ account bonding_curve false true
      ∷ account (associated_bonding_curve bonding_curve p.mint (some w.token_program)) false true
      ∷ account global_pda false false
      ∷ account mpl_token_metadata false false
      ∷ account (metadata_pda p.mint) false true
      ∷ account p.user true true
      ∷ account w.system_program false false
      ∷ account w.token_program false false
      ∷ account w.associated_token_program false false
      ∷ account w.rent_sysvar false false
      ∷ account event_authority_pda false false
      ∷ account pump_program_id false false
      ∷ []

  unfoldable pub build_create_ix : CreateParams → Result RangeError Instruction
  unfolding create_keys
  build_create_ix p = do
    name ← encode_string p.name
    symbol ← encode_string p.symbol
    uri ← encode_string p.uri
    ok (record {
      program_id = pump_program_id;
      keys = create_keys p;
      data_bytes = create_discriminator ++ (name ++ (symbol ++ (uri ++ to_buffer p.creator)));
    })

  -- The accounts of the buy, in the order of the IDL, and the two that follow them.
  unfoldable pub buy_keys : BuyParams → List AccountMeta
  buy_keys p =
      let token_program = or_default p.token_program w.token_program in
      let bonding_curve = bonding_curve_pda p.mint in
      let buyback =
        or_default p.buyback_fee_recipient
          (w.from_base58 "5YxQFdt3Tr9zJLvkFccqXVUwhdTWJQc1fFg2YPbxvxeD") in
      account global_pda false false
      ∷ account p.fee_recipient false true
      ∷ account p.mint false false
      ∷ account bonding_curve false true
      ∷ account (associated_bonding_curve bonding_curve p.mint (some token_program)) false true
      ∷ account (w.associated_token_address p.mint p.user token_program) false true
      ∷ account p.user true true
      ∷ account w.system_program false false
      ∷ account token_program false false
      ∷ account (creator_vault_pda p.creator) false true
      ∷ account event_authority_pda false false
      ∷ account pump_program_id false false
      ∷ account global_volume_accumulator_pda false false
      ∷ account (user_volume_accumulator_pda p.user) false true
      ∷ account fee_config_pda false false
      ∷ account pump_fee_program_id false false
      ∷ account (bonding_curve_v2_pda p.mint) false false
      ∷ account buyback false true
      ∷ []

  unfoldable pub build_buy_exact_sol_in_ix : BuyParams → Result RangeError Instruction
  unfolding buy_keys
  build_buy_exact_sol_in_ix p = do
    spendable ← write_u64 p.spendable_sol_in 0 (alloc 8)
    min_out ← write_u64 p.min_tokens_out 0 (alloc 8)
    ok (record {
      program_id = pump_program_id;
      keys = buy_keys p;
      data_bytes =
          buy_exact_sol_in_discriminator
          ++ (spendable ++ (min_out ++ (flag (or_default p.track_volume false) ∷ [])));
    })
