-- ===== src/Escrow/Pump.antt =====
-- The call of pump in programs/batchit/src/pump.rs, against the instruction that the TypeScript client
-- builds for a buyer that signs itself.
use batch_it_protocol.Prelude.{
  ◌∙◌, List, Result, [], ap, err, false, map, none, ok, true, ℕ, ◌++◌, ◌<◌, ◌≡◌, ◌∷◌,
}
use batch_it_protocol.Prelude.Bytes.{le_bytes}
use batch_it_protocol.Prelude.Int.{pos}
use batch_it_protocol.Prelude.Words.{u64_mod}
use batch_it_protocol.Escrow.Types.{Failure, Pubkey, buy_failed, program}
use batch_it_protocol.Web3.{AccountMeta, Instruction, Web3}
use batch_it_protocol.Spike.Lite.{AccountInfo, ProgramError, Solana}
use batch_it_protocol.Spike.Pump.Buy.{build_buy-built, direct_buy}
use batch_it_protocol.Web3.Reader.{flag}
use batch_it_protocol.Spike.Pump.{
  or_default, BuyParams, account, build_buy_exact_sol_in_ix, buy_exact_sol_in_discriminator,
  buy_keys, pump_program_id,
}

pub record PumpAccounts : Type 0 where
  pub global : AccountInfo
  pub fee_recipient : AccountInfo
  pub mint : AccountInfo
  pub bonding_curve : AccountInfo
  pub associated_bonding_curve : AccountInfo
  pub associated_user : AccountInfo
  pub buyer : AccountInfo
  pub system_program : AccountInfo
  pub token_program : AccountInfo
  pub creator_vault : AccountInfo
  pub event_authority : AccountInfo
  pub pump_program : AccountInfo
  pub global_volume_accumulator : AccountInfo
  pub user_volume_accumulator : AccountInfo
  pub fee_config : AccountInfo
  pub fee_program : AccountInfo
  pub bonding_curve_v2 : AccountInfo
  pub buyback_fee_recipient : AccountInfo

-- `map_err`
abbrev pub or_buy_failed {ℓ} : {S : Type ℓ} → Result ProgramError S → Result Failure S
or_buy_failed (ok s) = ok s
or_buy_failed (err e) = err (program buy_failed)

abbrev pub infos : PumpAccounts → List AccountInfo
infos a =
    a.global ∷ a.fee_recipient ∷ a.mint ∷ a.bonding_curve ∷ a.associated_bonding_curve
    ∷ a.associated_user ∷ a.buyer ∷ a.system_program ∷ a.token_program ∷ a.creator_vault
    ∷ a.event_authority ∷ a.pump_program ∷ a.global_volume_accumulator ∷ a.user_volume_accumulator
    ∷ a.fee_config ∷ a.fee_program ∷ a.bonding_curve_v2 ∷ a.buyback_fee_recipient ∷ []

unfoldable pub cpi_buy_exact_sol_in {ℓ} :
    {S : Type ℓ} → Web3 → Solana S → List (List ℕ) → PumpAccounts → ℕ → ℕ → Result Failure S
cpi_buy_exact_sol_in w s buyer_seeds a spendable_sol_in min_tokens_out =
    let ix : Instruction = record {
      program_id = pump_program_id w;
      keys =
          account a.global.key false false
          ∷ account a.fee_recipient.key false true
          ∷ account a.mint.key false false
          ∷ account a.bonding_curve.key false true
          ∷ account a.associated_bonding_curve.key false true
          ∷ account a.associated_user.key false true
          ∷ account a.buyer.key true true
          ∷ account a.system_program.key false false
          ∷ account a.token_program.key false false
          ∷ account a.creator_vault.key false true
          ∷ account a.event_authority.key false false
          ∷ account a.pump_program.key false false
          ∷ account a.global_volume_accumulator.key false false
          ∷ account a.user_volume_accumulator.key false true
          ∷ account a.fee_config.key false false
          ∷ account a.fee_program.key false false
          ∷ account a.bonding_curve_v2.key false false
          ∷ account a.buyback_fee_recipient.key false true
          ∷ [];
      data_bytes =
          buy_exact_sol_in_discriminator
          ++ (le_bytes 8 spendable_sol_in ++ (le_bytes 8 min_tokens_out ++ (0 ∷ [])));
    } in
    or_buy_failed (s.invoke_signed ix (infos a) buyer_seeds)

-- The same accounts, marked as in the instruction.
marked : List AccountMeta → List Pubkey → List AccountMeta
marked [] keys = []
marked (m ∷ ms) [] = []
marked (m ∷ ms) (k ∷ keys) = record m { pubkey = k } ∷ marked ms keys

-- With the accounts whose addresses the client derives for a buyer, and 64-bit amounts, the program
-- calls pump with exactly the instruction that buildBuyExactSolInIx builds for that buyer.
pub cpi-client {ℓ} :
    {S : Type ℓ} (w : Web3) (s : Solana S) (seeds : List (List ℕ)) (a : PumpAccounts)
    (p : BuyParams) (v m : ℕ)
    → map (λ (x : AccountInfo). x.key) (infos a)
      ≡ map (λ (x : AccountMeta). x.pubkey) (buy_keys w p)
    → p.spendable_sol_in ≡ pos v
    → p.min_tokens_out ≡ pos m
    → p.track_volume ≡ none
    → v < u64_mod
    → m < u64_mod
    → (ix : Instruction) × (build_buy_exact_sol_in_ix w p ≡ ok ix)
      × (cpi_buy_exact_sol_in w s seeds a v m ≡ or_buy_failed (s.invoke_signed ix (infos a) seeds))
unfolding cpi_buy_exact_sol_in marked buy_keys
cpi-client w s seeds a p v m same ev em et hv hm =
    let bytes = buy_exact_sol_in_discriminator ++ (le_bytes 8 v ++ (le_bytes 8 m ++ (0 ∷ []))) in
    let at = λ (keys : List AccountMeta). or_buy_failed (
      s.invoke_signed (record { program_id = pump_program_id w; keys = keys; data_bytes = bytes })
        (infos a) seeds) in
    (
      record { program_id = pump_program_id w; keys = buy_keys w p; data_bytes = bytes },
      build_buy-built w p v m ev em hv hm
          ∙ ap
              (λ t. ok (record (direct_buy w p v m) {
                data_bytes =
                    buy_exact_sol_in_discriminator
                    ++ (le_bytes 8 v ++ (le_bytes 8 m ++ (flag (or_default t false) ∷ [])));
              }))
              et,
      ap (λ keys. at (marked (buy_keys w p) keys)) same,
    )
