-- ===== src/Spike/Run/Success.antt =====
-- When a run through the Anchor program succeeds in one transaction.
use batch_it_protocol.Prelude.{
  List, Option, [], arith, false, inl, inr, length, ltb, none, ok, refl, some, true, Bool-cases, ℕ,
  ◌+◌, ◌++◌, ◌<◌, ◌==◌, ◌≡◌, ◌≤◌, ◌∷◌,
}
use batch_it_protocol.Prelude.Int.{pos}
use batch_it_protocol.Prelude.Words.{u32_mod, u64_mod}
use Prim.Native.String.{String}
use batch_it_protocol.Web3.{Instruction, IsWeb3, Web3}
use batch_it_protocol.Web3.Buffer.{write_u64-behind, length-take}
use batch_it_protocol.Spike.Fees.Layout.{Global, IsGlobal, decode_global_fees-layout, global_bytes}
use batch_it_protocol.Spike.LiteRun.Success.{first_of}
use batch_it_protocol.Spike.Pump.{account}
use batch_it_protocol.Spike.Lite.{buyer_pda}
use batch_it_protocol.Prelude.Bytes.{le_bytes}
use batch_it_protocol.Spike.Program.{anchor_disc, build_fund_buyer_ix}
use batch_it_protocol.Spike.Program.Data.{build_pda_buy_ix-data}
use batch_it_protocol.Spike.Pump.Create.{build_create_ix-built}
use batch_it_protocol.Spike.Run.{Inputs, SpikeRun, ensure_program_deployed, proven, Note}
use batch_it_protocol.Spike.Run.Paths.{
  buy_params, buyer_ata, create_params, fund_by, main, missing, steps, try_same_tx,
}
use batch_it_protocol.Spike.Run.Verdict.{
  RunVerdict, at_once, crashed, in_turn, main-RunVerdict, not_shown,
}

-- A run that ends with the exit status 0 prints that the option is proven.
zero-proven :
    {w : Web3} {i : Inputs} (run : SpikeRun)
    → RunVerdict w i run
    → run.status ≡ 0
    → run.printed ≡ proven
zero-proven _ crashed h = absurd (omega arith)
zero-proven _ (not_shown r printed status hs hp hn) h = absurd (omega arith)
zero-proven _ (at_once p r b t h) z = h
zero-proven _ (in_turn p r b t h) z = h

module _ (w : Web3) (legal : IsWeb3 w) (i : Inputs) where
  fund : ℕ → Instruction
  fund amount = record {
    program_id = i.program_id;
    keys =
        account i.funder true true
        ∷ account (buyer_pda w i.program_id).0 false true
        ∷ account w.system_program false false
        ∷ [];
    data_bytes = anchor_disc w "fund_buyer" ++ (le_bytes 8 amount ++ []);
  }

  build_fund_buyer_ix-data :
      (amount : ℕ)
      → amount < u64_mod
      → build_fund_buyer_ix w i.program_id i.funder (pos amount) ≡ ok (fund amount)
  unfolding build_fund_buyer_ix anchor_disc fund
  build_fund_buyer_ix-data amount h =
      let d = anchor_disc w "fund_buyer" in
      let e : length d ≡ 8 =
        length-take 8 (w.sha256 "global:fund_buyer")
          (omega (arith, legal.hash_size "global:fund_buyer")) in
      let written = write_u64-behind d amount e h in rw written refl

  fund_by-built :
      (amount : ℕ)
      → amount < u64_mod
      → (funding : Option Instruction) × (fund_by w i amount ≡ ok funding)
  fund_by-built amount h = elim (Bool-cases (ltb 0 amount)) [
    | inl k ↦ (some (fund amount), rw (k, build_fund_buyer_ix-data amount h) refl)
    | inr k ↦ (none, rw k refl)
  ]

  -- A run through the Anchor program reports success with exit status 0, if the funder has 0.5 SOL, the
  -- program is deployed, pump's Global account has the layout of the IDL, the strings and amounts of the
  -- configuration fit, the simulation of the one transaction reports no error, it is sent and confirmed,
  -- and the buyer's account then holds a positive amount.
  pub main_lands :
      (balance buyer_balance : ℕ) (notes : List Note) (g : Global) (discriminator left : List ℕ)
      (blockhash signature confirmed : String) (logs : List String) (amount : ℕ)
      → i.balance ≡ ok balance
      → 500000000 ≤ balance
      → ensure_program_deployed i.program_id i.deployment ≡ ok notes
      → IsGlobal g
      → length discriminator ≡ 8
      → i.global_data ≡ ok (some (discriminator ++ (global_bytes g ++ left)))
      → length (w.utf8 i.spike.token_name) < u32_mod
      → length (w.utf8 i.spike.token_symbol) < u32_mod
      → length (w.utf8 i.spike.token_uri) < u32_mod
      → i.buyer_balance ≡ ok buyer_balance
      → i.spike.buy_sol_lamports + 5000000 < u64_mod
      → i.spike.min_tokens_out < u64_mod
      → i.same_blockhash ≡ ok blockhash
      → ((txs : List Instruction)
          → i.same_simulation txs ≡ ok (record { error = none; logs = logs }))
      → ((txs : List Instruction) → i.same_sent txs ≡ ok signature)
      → i.same_confirmed signature ≡ ok confirmed
      → i.same_amount (buyer_ata w i) ≡ ok amount
      → 0 < amount
      → ((main w i).status ≡ 0) × ((main w i).printed ≡ proven)
  unfolding main steps try_same_tx
  main_lands balance buyer_balance notes g discriminator left blockhash signature confirmed logs
        amount hb rich deployed hg hd he hn hs hu hbb hv hm hh sim sent conf held positive =
      let enough : ltb balance 500000000 ≡ false = ground arith in
      let full : (amount == 0) ≡ false = ground arith in
      let (buyback, first) = first_of 8 g.buyback_fee_recipients hg.eight_buyback (omega arith) in
      let (funding, funded) = fund_by-built (missing w i buyer_balance) (ground arith) in
      let (buy, built, _, _) =
        build_pda_buy_ix-data w (buy_params w i g.fee_recipient buyback) i.spike.buy_sol_lamports
          i.spike.min_tokens_out legal refl refl (omega arith) hm in
      let zero : (main w i).status ≡ 0 =
        rw
          (
            hb,
            enough,
            deployed,
            he,
            decode_global_fees-layout w legal g hg discriminator left hd,
            build_create_ix-built w (create_params w i) hn hs hu,
            hbb,
            funded,
            first,
            built,
            hh,
            sim _,
            sent _,
            conf,
            held,
            full,
          )
          refl in
      (zero, zero-proven (main w i) (main-RunVerdict w i) zero)
