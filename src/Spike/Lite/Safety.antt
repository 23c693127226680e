-- ===== src/Spike/Lite/Safety.antt =====
-- What the lite program can be made to call, by whatever accounts and data.
use batch_it_protocol.Prelude.{
  Bool-cases, ==_iff, take, leb, length, Bool, List, Result, [], err, false, if◌then◌else◌, inl,
  inr, not, ok, refl, require, true, ℕ, ◌==◌, ◌>>=◌, ◌>>◌, ◌∷◌, ◌≡◌,
}
use batch_it_protocol.Prelude.Bytes.{from_le_bytes}
use batch_it_protocol.Escrow.Types.{Pubkey}
use batch_it_protocol.Web3.{AccountMeta, Instruction, Web3}
use batch_it_protocol.Spike.Lite.{
  next_account, parse_buy, invalid_argument, missing_required_signature, invalid_seeds,
  incorrect_program_id, invalid_instruction_data, AccountInfo, ProgramError, Solana,
  buy_exact_sol_in_with_pda, buyer_pda, fund_buyer, process_instruction,
}
use batch_it_protocol.Spike.Pump.{pump_program_id}

-- The accounts that must have signed an instruction.
abbrev pub signers : List AccountMeta → List Pubkey
signers [] = []
signers (a ∷ rest) = if a.is_signer then a.pubkey ∷ signers rest else signers rest

module _ {ℓ} {S : Type ℓ} (w : Web3) (s : Solana S) (program_id : Pubkey) where
  -- The results that the program may have: an error of its own; a transfer to its address out of an
  -- account that signed; or a call of pump that its address alone signs.
  pub data Allowed : Result ProgramError S → Type ℓ where
    refused : (e : ProgramError) → Allowed (err e)
    funded :
        (payer : AccountInfo) (v : ℕ) (infos : List AccountInfo)
        → payer.is_signer ≡ true
        → Allowed (s.invoke_signed (s.transfer payer.key (buyer_pda w program_id).0 v) infos [])
    bought :
        (ix : Instruction) (infos : List AccountInfo)
        → ix.program_id ≡ pump_program_id w
        → signers ix.keys ≡ (buyer_pda w program_id).0 ∷ []
        → Allowed
            (s.invoke_signed ix infos (w.utf8 "buyer" ∷ ((buyer_pda w program_id).1 ∷ []) ∷ []))

  Allowed-bind {κ} :
      {A : Type κ} (m : Result ProgramError A) (f : A → Result ProgramError S)
      → ((a : A) → Allowed (f a))
      → Allowed (m >>= f)
  Allowed-bind (ok a) f h = h a
  Allowed-bind (err e) f h = refused e

  Allowed-require :
      (b : Bool) (e : ProgramError) (r : Result ProgramError S)
      → (b ≡ true → Allowed r)
      → Allowed (require b e >> r)
  Allowed-require true e r h = h refl
  Allowed-require false e r h = refused e

  fund_buyer-Allowed :
      (accounts : List AccountInfo) (bytes : List ℕ)
      → Allowed (fund_buyer w s program_id accounts bytes)
  unfolding fund_buyer
  fund_buyer-Allowed accounts bytes =
      let amount = from_le_bytes (take 8 bytes) in
      Allowed-require (leb 8 (length bytes)) invalid_instruction_data _ λ _.
        Allowed-require (not (amount == 0)) invalid_argument _ λ _.
          Allowed-bind (next_account accounts) _ λ (payer, accounts).
            Allowed-bind (next_account accounts) _ λ (buyer, accounts).
              Allowed-bind (next_account accounts) _ λ (system, accounts).
                Allowed-require payer.is_signer missing_required_signature _ λ signed.
                  Allowed-require (buyer.key == (buyer_pda w program_id).0) invalid_seeds _ λ own.
                    Allowed-require (system.key == w.system_program) incorrect_program_id _ λ _.
                      let same = (==_iff buyer.key (buyer_pda w program_id).0).0 own in
                      rw same (funded payer amount _ signed)

  buy-Allowed :
      (accounts : List AccountInfo) (bytes : List ℕ)
      → Allowed (buy_exact_sol_in_with_pda w s program_id accounts bytes)
  unfolding buy_exact_sol_in_with_pda
  buy-Allowed accounts bytes =
      Allowed-bind (parse_buy bytes) _ λ (spendable, min_out, track_volume).
        Allowed-bind (next_account accounts) _ λ (buyer, accounts).
          Allowed-bind (next_account accounts) _ λ (global, accounts).
            Allowed-bind (next_account accounts) _ λ (fee_recipient, accounts).
              Allowed-bind (next_account accounts) _ λ (mint, accounts).
                Allowed-bind (next_account accounts) _ λ (bonding_curve, accounts).
                  Allowed-bind (next_account accounts) _ λ (associated_bonding_curve, accounts).
                    Allowed-bind (next_account accounts) _ λ (associated_user, accounts).
                      Allowed-bind (next_account accounts) _ λ (creator_vault, accounts).
                        Allowed-bind (next_account accounts) _ λ (event_authority, accounts).
                          Allowed-bind (next_account accounts) _ λ (pump_program, accounts).
                            Allowed-bind (next_account accounts) _
                              λ (global_volume_accumulator, accounts).
                                Allowed-bind (next_account accounts) _
                                  λ (user_volume_accumulator, accounts).
                                    Allowed-bind (next_account accounts) _ λ (fee_config, accounts).
                                      Allowed-bind (next_account accounts) _
                                        λ (fee_program, accounts).
                                          Allowed-bind (next_account accounts) _
                                            λ (system, accounts).
                                              Allowed-bind (next_account accounts) _
                                                λ (token_program, accounts).
                                                  Allowed-bind (next_account accounts) _
                                                    λ (bonding_curve_v2, accounts).
                                                      Allowed-bind (next_account accounts) _
                                                        λ (buyback_fee_recipient, accounts).
                                                          Allowed-require
                                                            (buyer.key
                                                            == (buyer_pda w program_id).0)
                                                            invalid_seeds _
                                                            λ own.
                                                            Allowed-require
                                                            (pump_program.key == pump_program_id w)
                                                            incorrect_program_id _
                                                            λ _.
                                                            let same =
                                                            (==_iff buyer.key
                                                            (buyer_pda w program_id).0).0
                                                            own in
                                                            rw same (bought _ _ refl refl)

  -- Whatever accounts and data it is given, the lite program fails, or it moves lamports to its address
  -- from an account that signed, or it calls pump by an instruction that its address alone signs.
  pub process_instruction-Allowed :
      (accounts : List AccountInfo) (bytes : List ℕ)
      → Allowed (process_instruction w s program_id accounts bytes)
  unfolding process_instruction
  process_instruction-Allowed accounts [] = refused invalid_instruction_data
  process_instruction-Allowed accounts (tag ∷ bytes) = elim (Bool-cases (tag == 0)) [
    | inl h ↦ rw h (fund_buyer-Allowed accounts bytes)
    | inr h ↦ elim (Bool-cases (tag == 1)) [
      | inl k ↦ rw (h, k) (buy-Allowed accounts bytes)
      | inr k ↦ rw (h, k) (refused invalid_instruction_data)
    ]
  ]
