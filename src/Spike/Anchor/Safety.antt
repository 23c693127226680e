-- ===== src/Spike/Anchor/Safety.antt =====
-- What the Anchor program can be made to call, by whatever accounts and arguments.
use batch_it_protocol.Prelude.{
  Bool, List, Result, ap, [], ==_iff, err, false, ltb, ok, refl, require, true, ℕ, ◌==◌, ◌>>=◌,
  ◌>>◌, ◌∷◌, ◌≡◌, arith, ◌<◌,
}
use batch_it_protocol.Escrow.Types.{Pubkey}
use batch_it_protocol.Web3.{Instruction, Web3}
use batch_it_protocol.Spike.Anchor.{
  BuyExactSolInWithPda, Chain, SpikeFailure, buy_exact_sol_in_with_pda, check_buy, fund_buyer,
  or_rejected, passed_on, pump_buy, spike, take_buy, take_fund, account_not_signer,
  invalid_program_id, constraint_mut, constraint_seeds, two_left, zero_amount,
}
use batch_it_protocol.Spike.Lite.{AccountInfo, Solana, buyer_pda}
use batch_it_protocol.Spike.Lite.Safety.{signers}
use batch_it_protocol.Spike.Pump.{pump_program_id}

module _ {ℓ} {S : Type ℓ} (w : Web3) (s : Solana S) (chain : Chain) (program_id : Pubkey) where
  -- The results that the two handlers may have: a failure; a transfer of a positive amount to the
  -- program's address out of an account that signed; or a call of pump, to spend a positive amount,
  -- that the program's address alone signs.
  pub data PdaAllowed : Result SpikeFailure S → Type ℓ where
    refused : (e : SpikeFailure) → PdaAllowed (err e)
    funded :
        (payer : AccountInfo) (lamports : ℕ) (infos : List AccountInfo)
        → payer.is_signer ≡ true
        → 0 < lamports
        → PdaAllowed (
            passed_on
              (s.invoke_signed (s.transfer payer.key (buyer_pda w program_id).0 lamports) infos []))
    bought :
        (ix : Instruction) (infos : List AccountInfo)
        → ix.program_id ≡ pump_program_id w
        → signers ix.keys ≡ (buyer_pda w program_id).0 ∷ []
        → PdaAllowed (
            or_rejected
              (s.invoke_signed ix infos (w.utf8 "buyer" ∷ ((buyer_pda w program_id).1 ∷ []) ∷ [])))

  PdaAllowed-bind {κ} :
      {A : Type κ} (m : Result SpikeFailure A) (f : A → Result SpikeFailure S)
      → ((a : A) → m ≡ ok a → PdaAllowed (f a))
      → PdaAllowed (m >>= f)
  PdaAllowed-bind (ok a) f h = h a refl
  PdaAllowed-bind (err e) f h = refused e

  PdaAllowed-require :
      (b : Bool) (e : SpikeFailure) (r : Result SpikeFailure S)
      → (b ≡ true → PdaAllowed r)
      → PdaAllowed (require b e >> r)
  PdaAllowed-require true e r h = h refl
  PdaAllowed-require false e r h = refused e

  PdaAllowed-then :
      (m : Result SpikeFailure (Unit {0})) (r : Result SpikeFailure S)
      → (m ≡ ok tt → PdaAllowed r)
      → PdaAllowed (m >> r)
  PdaAllowed-then (ok tt) r h = h refl
  PdaAllowed-then (err e) r h = refused e

  -- Whatever accounts and amount it is given, `fund_buyer` fails, or it moves a positive amount to the
  -- program's address from an account that signed.
  pub fund_buyer-PdaAllowed :
      (accounts : List AccountInfo) (lamports : ℕ)
      → PdaAllowed (fund_buyer w s chain program_id accounts lamports)
  unfolding fund_buyer
  fund_buyer-PdaAllowed accounts lamports = PdaAllowed-bind (take_fund accounts) _ λ (a, _) _.
      PdaAllowed-require a.payer.is_signer account_not_signer _ λ signed.
        PdaAllowed-require (a.system_program.key == w.system_program) invalid_program_id _ λ _.
          PdaAllowed-require a.payer.is_writable constraint_mut _ λ _.
            PdaAllowed-require a.buyer.is_writable constraint_mut _ λ _.
              PdaAllowed-require (a.buyer.key == (buyer_pda w program_id).0) constraint_seeds _
                λ own. PdaAllowed-require (ltb 0 lamports) (spike zero_amount) _ λ positive.
                  let same = (==_iff a.buyer.key (buyer_pda w program_id).0).0 own in
                  rw same (funded a.payer lamports _ signed (ground (arith, positive)))

  check_buy-own :
      (a : BuyExactSolInWithPda) {u : Unit {0}}
      → check_buy w s chain program_id a ≡ ok u
      → a.buyer.key ≡ (buyer_pda w program_id).0
  unfolding check_buy
  check_buy-own a e = ground arith

  pump_buy-signers :
      (a : BuyExactSolInWithPda) (v2 buyback : AccountInfo) (v m : ℕ) (t : Bool)
      → a.buyer.key ≡ (buyer_pda w program_id).0
      → signers (pump_buy w s chain program_id a v2 buyback v m t).keys
        ≡ (buyer_pda w program_id).0 ∷ []
  unfolding pump_buy
  pump_buy-signers a v2 buyback v m t own = ap (λ k. k ∷ []) own

  -- Whatever accounts and arguments it is given, `buy_exact_sol_in_with_pda` fails, or it calls pump by
  -- an instruction that the program's address alone signs.
  pub buy-PdaAllowed :
      (accounts : List AccountInfo) (v m : ℕ) (track_volume : Bool)
      → PdaAllowed (buy_exact_sol_in_with_pda w s chain program_id accounts v m track_volume)
  unfolding buy_exact_sol_in_with_pda
  buy-PdaAllowed accounts v m track_volume =
      PdaAllowed-bind (take_buy accounts) _ λ (a, remaining) _.
        PdaAllowed-then (check_buy w s chain program_id a) _ λ checked.
          PdaAllowed-require (ltb 0 v) (spike zero_amount) _ λ positive.
            PdaAllowed-bind (two_left w s chain program_id remaining) _ λ (v2, buyback) _.
              bought (pump_buy w s chain program_id a v2 buyback v m track_volume) _ refl
                (pump_buy-signers a v2 buyback v m track_volume (check_buy-own a checked))
