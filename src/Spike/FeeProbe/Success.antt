-- ===== src/Spike/FeeProbe/Success.antt =====
-- When the fee probe announces a success.
use batch_it_protocol.Prelude.{
  List, [], arith, length, none, ok, refl, some, ℕ, ◌++◌, ◌<◌, ◌≡◌, ◌∷◌, get_elem?,
}
use batch_it_protocol.Prelude.Words.{u32_mod, u64_mod}
use Prim.Native.String.{String}
use batch_it_protocol.Web3.{Instruction, IsWeb3, Web3}
use batch_it_protocol.Spike.FeeProbe.{
  ProbeInputs, balance, bought_by, buy_sim_ok, buy_with, buyback_key, buyer_key, created,
  fee_probe_success, fee_recipient_key, funder_key, main, mint_key, probe_ata, probe_buy_params,
  probe_create_params, probe_create_tx, probe_steps,
}
use batch_it_protocol.Spike.Fees.Layout.{Global, IsGlobal, decode_global_fees-layout, global_bytes}
use batch_it_protocol.Spike.LiteRun.Success.{first_of}
use batch_it_protocol.Spike.Pump.Buy.{build_buy-built}
use batch_it_protocol.Spike.Pump.Create.{build_create_ix-built, create_ix}

module _ (w : Web3) (legal : IsWeb3 w) (i : ProbeInputs) where
  -- The fee probe announces a success, with the signatures and the amount that it was answered, if
  -- pump's Global account has the layout of the IDL, the strings and amounts fit, the simulation reports
  -- no error and every other call succeeds. The amount may be 0: the probe does not test it.
  pub probe_announces :
      (g : Global) (discriminator left : List ℕ) (create blockhash buy : String) (amount : ℕ)
      → IsGlobal g
      → length discriminator ≡ 8
      → i.global_data ≡ ok (some (discriminator ++ (global_bytes g ++ left)))
      → length (w.utf8 "BatchIt FeeProbe") < u32_mod
      → length (w.utf8 "BIFP") < u32_mod
      → length (w.utf8 i.spike.token_uri) < u32_mod
      → i.spike.buy_sol_lamports < u64_mod
      → i.spike.min_tokens_out < u64_mod
      → ((txs : List Instruction) → i.create_signature txs ≡ ok create)
      → i.blockhash ≡ ok blockhash
      → ((txs : List Instruction) → i.simulation txs ≡ ok none)
      → ((txs : List Instruction) → i.buy_signature txs ≡ ok buy)
      → i.token_amount (probe_ata w i) ≡ ok amount
      → (buyback : ℕ) × (get_elem? g.buyback_fee_recipients 0 ≡ some buyback)
        × (main w i ≡ record {
          printed =
              funder_key i.funder
              ∷ buyer_key i.buyer
              ∷ mint_key i.mint
              ∷ fee_recipient_key g.fee_recipient
              ∷ buyback_key buyback
              ∷ created create
              ∷ buy_sim_ok
              ∷ bought_by buy
              ∷ balance amount
              ∷ fee_probe_success
              ∷ [];
          status = 0;
        })
  unfolding main probe_steps buy_with
  probe_announces g discriminator left create blockhash buy amount hg hd he hn hs hu hv hm hc hh sim
        sent held =
      let (buyback, first) = first_of 8 g.buyback_fee_recipients hg.eight_buyback (omega arith) in
      let p = probe_buy_params w i g.fee_recipient buyback in
      (
        buyback,
        first,
        rw
            (
              he,
              decode_global_fees-layout w legal g hg discriminator left hd,
              first,
              build_create_ix-built w (probe_create_params w i) hn hs hu,
              build_buy-built w p i.spike.buy_sol_lamports i.spike.min_tokens_out refl refl hv hm,
              hc (probe_create_tx w i (create_ix w (probe_create_params w i))),
              hh,
              sim _,
              sent _,
              held,
            )
            refl,
      )
