-- ===== src/Spike/Anchor.antt =====
-- programs/spike_pda_buyer/src/lib.rs: the Anchor program, which signs the buy with its own address.
-- Each handler takes its accounts as the list that the instruction names, takes them apart in the order
-- of its `#[derive(Accounts)]` structure, and tests the constraints declared there; the accounts left
-- over are the remaining ones. Logs and the event are left out.
pub mod Relay
pub mod Safety
use batch_it_protocol.Prelude.{
  Bool, List, Result, [], err, false, length, ltb, ok, require, true, ℕ, ◌&&◌, ◌++◌, ◌==◌, ◌>>=◌,
  ◌>>◌, ◌∷◌,
}
use batch_it_protocol.Prelude.Bytes.{le_bytes}
use batch_it_protocol.Escrow.Types.{Pubkey}
use batch_it_protocol.Web3.{Instruction, Web3}
use batch_it_protocol.Web3.Reader.{flag}
use batch_it_protocol.Spike.Lite.{AccountInfo, ProgramError, Solana, buyer_pda}
use batch_it_protocol.Spike.Pump.{account, buy_exact_sol_in_discriminator, pump_program_id}

pub data SpikeError : Type 0 where
  zero_amount pump_buy_rejected bad_remaining_accounts : SpikeError

-- An instruction fails by an error of the program, by one of Anchor's, or because a call fails.
pub data SpikeFailure : Type 0 where
  spike : SpikeError → SpikeFailure
  account_not_enough_keys constraint_mut constraint_seeds constraint_address : SpikeFailure
  account_not_signer invalid_program_id account_not_initialized : SpikeFailure
  invoked : ProgramError → SpikeFailure

-- What the runtime knows of the accounts beyond their keys: whether one is a token account, and whether
-- one is a token program.
pub record Chain : Type 0 where
  pub is_token_account : Pubkey → Bool
  pub is_token_program : Pubkey → Bool

pub record FundBuyer : Type 0 where
  pub payer : AccountInfo
  pub buyer : AccountInfo
  pub system_program : AccountInfo

pub record BuyExactSolInWithPda : Type 0 where
  pub buyer : AccountInfo
  pub global : AccountInfo
  pub fee_recipient : AccountInfo
  pub mint : AccountInfo
  pub bonding_curve : AccountInfo
  pub associated_bonding_curve : AccountInfo
  pub associated_user : AccountInfo
  pub creator_vault : AccountInfo
  pub event_authority : AccountInfo
  pub pump_program : AccountInfo
  pub global_volume_accumulator : AccountInfo
  pub user_volume_accumulator : AccountInfo
  pub fee_config : AccountInfo
  pub fee_program : AccountInfo
  pub system_program : AccountInfo
  pub token_program : AccountInfo
  pub associated_token_program : AccountInfo

-- The fields of the two structures, in their order, and the accounts left over.
unfoldable pub take_fund : List AccountInfo → Result SpikeFailure (FundBuyer × List AccountInfo)
take_fund (payer ∷ buyer ∷ system_program ∷ rest) =
    ok (record { payer = payer; buyer = buyer; system_program = system_program }, rest)
take_fund _ = err account_not_enough_keys

unfoldable pub take_buy :
    List AccountInfo → Result SpikeFailure (BuyExactSolInWithPda × List AccountInfo)
take_buy
      (buyer ∷ global ∷ fee_recipient ∷ mint ∷ bonding_curve ∷ associated_bonding_curve
        ∷ associated_user ∷ creator_vault ∷ event_authority ∷ pump_program
        ∷ global_volume_accumulator ∷ user_volume_accumulator ∷ fee_config ∷ fee_program
        ∷ system_program ∷ token_program ∷ associated_token_program ∷ rest) =
    ok (
      record {
        buyer = buyer;
        global = global;
        fee_recipient = fee_recipient;
        mint = mint;
        bonding_curve = bonding_curve;
        associated_bonding_curve = associated_bonding_curve;
        associated_user = associated_user;
        creator_vault = creator_vault;
        event_authority = event_authority;
        pump_program = pump_program;
        global_volume_accumulator = global_volume_accumulator;
        user_volume_accumulator = user_volume_accumulator;
        fee_config = fee_config;
        fee_program = fee_program;
        system_program = system_program;
        token_program = token_program;
        associated_token_program = associated_token_program;
      },
      rest,
    )
take_buy _ = err account_not_enough_keys

-- The result of a call that the program passes on, and of the call of pump, whose error it replaces.
abbrev pub passed_on {ℓ} : {S : Type ℓ} → Result ProgramError S → Result SpikeFailure S
passed_on (ok s) = ok s
passed_on (err e) = err (invoked e)

abbrev pub or_rejected {ℓ} : {S : Type ℓ} → Result ProgramError S → Result SpikeFailure S
or_rejected (ok s) = ok s
or_rejected (err e) = err (spike pump_buy_rejected)

module _ {ℓ} {S : Type ℓ} (w : Web3) (s : Solana S) (chain : Chain) (program_id : Pubkey) where
  unfoldable pub fund_buyer : List AccountInfo → ℕ → Result SpikeFailure S
  fund_buyer accounts lamports = do
    (a, _) ← take_fund accounts
    require a.payer.is_signer account_not_signer
    require (a.system_program.key == w.system_program) invalid_program_id
    require a.payer.is_writable constraint_mut
    require a.buyer.is_writable constraint_mut
    require (a.buyer.key == (buyer_pda w program_id).0) constraint_seeds
    require (ltb 0 lamports) (spike zero_amount)
    passed_on (
        s.invoke_signed (s.transfer a.payer.key a.buyer.key lamports)
          (a.payer ∷ a.buyer ∷ a.system_program ∷ []) [])

  -- The types and the constraints that `BuyExactSolInWithPda` declares.
  unfoldable pub check_buy : BuyExactSolInWithPda → Result SpikeFailure (Unit {0})
  check_buy a = do
    require (chain.is_token_account a.associated_user.key) account_not_initialized
    require (a.system_program.key == w.system_program) invalid_program_id
    require (chain.is_token_program a.token_program.key) invalid_program_id
    require (a.associated_token_program.key == w.associated_token_program) invalid_program_id
    require a.buyer.is_writable constraint_mut
    require (a.buyer.key == (buyer_pda w program_id).0) constraint_seeds
    require (a.fee_recipient.is_writable && a.bonding_curve.is_writable) constraint_mut
    require (a.associated_bonding_curve.is_writable && a.associated_user.is_writable) constraint_mut
    require a.creator_vault.is_writable constraint_mut
    require (a.pump_program.key == pump_program_id w) constraint_address
    require a.user_volume_accumulator.is_writable constraint_mut

  -- The instruction for pump, and the accounts passed with it.
  unfoldable pub pump_buy :
      BuyExactSolInWithPda → AccountInfo → AccountInfo → ℕ → ℕ → Bool → Instruction
  pump_buy a bonding_curve_v2 buyback_fee_recipient spendable_sol_in min_tokens_out track_volume =
      record {
        program_id = pump_program_id w;
        keys =
            account a.global.key false false
            ∷ account a.fee_recipient.key false true
            ∷ account a.mint.key false false
            ∷ account a.bonding_curve.key false true
            ∷ account a.associated_bonding_curve.key false true
            ∷ account a.associated_user.key false true
            ∷ account a.buyer.key true true
            ∷ account a.system_program.key false false
            ∷ account a.token_program.key false false
            ∷ account a.creator_vault.key false true
            ∷ account a.event_authority.key false false
            ∷ account a.pump_program.key false false
            ∷ account a.global_volume_accumulator.key false false
            ∷ account a.user_volume_accumulator.key false true
            ∷ account a.fee_config.key false false
            ∷ account a.fee_program.key false false
            ∷ account bonding_curve_v2.key false false
            ∷ account buyback_fee_recipient.key false true
            ∷ [];
        data_bytes =
            buy_exact_sol_in_discriminator
            ++ (le_bytes 8 spendable_sol_in
                ++ (le_bytes 8 min_tokens_out ++ (flag track_volume ∷ [])));
      }

  unfoldable pub pump_infos : BuyExactSolInWithPda → AccountInfo → AccountInfo → List AccountInfo
  pump_infos a bonding_curve_v2 buyback_fee_recipient =
      a.global ∷ a.fee_recipient ∷ a.mint ∷ a.bonding_curve ∷ a.associated_bonding_curve
      ∷ a.associated_user ∷ a.buyer ∷ a.system_program ∷ a.token_program ∷ a.creator_vault
      ∷ a.event_authority ∷ a.pump_program ∷ a.global_volume_accumulator ∷ a.user_volume_accumulator
      ∷ a.fee_config ∷ a.fee_program ∷ bonding_curve_v2 ∷ buyback_fee_recipient ∷ []

  -- `remaining_accounts`, of which there must be two.
  unfoldable pub two_left : List AccountInfo → Result SpikeFailure (AccountInfo × AccountInfo)
  two_left (bonding_curve_v2 ∷ buyback_fee_recipient ∷ []) =
      ok (bonding_curve_v2, buyback_fee_recipient)
  two_left _ = err (spike bad_remaining_accounts)

  unfoldable pub buy_exact_sol_in_with_pda : List AccountInfo → ℕ → ℕ → Bool → Result SpikeFailure S
  unfolding check_buy pump_buy pump_infos two_left
  buy_exact_sol_in_with_pda accounts spendable_sol_in min_tokens_out track_volume = do
    (a, remaining_accounts) ← take_buy accounts
    check_buy a
    require (ltb 0 spendable_sol_in) (spike zero_amount)
    (v2, buyback) ← two_left remaining_accounts
    or_rejected (
        s.invoke_signed (pump_buy a v2 buyback spendable_sol_in min_tokens_out track_volume)
          (pump_infos a v2 buyback) (w.utf8 "buyer" ∷ ((buyer_pda w program_id).1 ∷ []) ∷ []))
