-- ===== src/Localnet/CompleteBuy/Relay.antt =====
-- From the client's complete_buy to the call of pump.
use batch_it_protocol.Prelude.{
  false, true, List, [], arith, drop, length, map, none, ok, refl, some, take, ℕ, ◌++◌, ◌<◌, ◌≡◌,
  ◌∷◌,
}
use batch_it_protocol.Prelude.Bytes.{le_bytes}
use batch_it_protocol.Prelude.Int.{pos}
use batch_it_protocol.Prelude.Words.{u64_mod}
use batch_it_protocol.Escrow.Pump.{
  PumpAccounts, cpi-client, cpi_buy_exact_sol_in, infos, or_buy_failed,
}
use batch_it_protocol.Escrow.Types.{Pubkey}
use batch_it_protocol.Localnet.CompleteBuy.{
  CompleteBuyParams, batchit_program_id, complete_buy_ix, complete_buy_keys, pool_buyer_pda,
  pool_pda, take_complete_buy,
}
use batch_it_protocol.Web3.{Instruction, IsWeb3, Web3, to_buffer}
use batch_it_protocol.Web3.Buffer.{
  drop_prefix, length-take, take_prefix, write_u64-alloc, write_u64-behind,
}
use batch_it_protocol.Web3.Reader.{read_u64, read_u64-Reads}
use batch_it_protocol.Spike.Lite.{Solana}
use batch_it_protocol.Spike.Lite.Relay.{info_of}
use batch_it_protocol.Spike.Program.{anchor_disc}
use batch_it_protocol.Spike.Pump.{
  account, bonding_curve_pda, bonding_curve_v2_pda, creator_vault_pda, event_authority_pda,
  fee_config_pda, global_pda, global_volume_accumulator_pda, pump_fee_program_id, pump_program_id,
  user_volume_accumulator_pda, BuyParams, associated_bonding_curve, build_buy_exact_sol_in_ix,
  buy_keys,
}

module _ {ℓ} {S : Type ℓ} (w : Web3) (legal : IsWeb3 w) (s : Solana S) (p : CompleteBuyParams)
    (seed m v : ℕ) where
  -- The address of the pool, for a seed of 64 bits.
  abbrev pub pool_key_of : Pubkey
  pool_key_of =
      (w.find_program_address (w.utf8 "pool" ∷ to_buffer p.creator ∷ (le_bytes 8 seed ++ []) ∷ [])
        (batchit_program_id w)).0

  -- The direct buy by the pool's buyer, which is the creator of the token too, to spend `v`.
  abbrev pub as_pool_buyer : BuyParams
  as_pool_buyer = record {
    user = pool_buyer_pda w pool_key_of;
    mint = p.mint;
    creator = pool_buyer_pda w pool_key_of;
    spendable_sol_in = pos v;
    min_tokens_out = pos m;
    fee_recipient = p.fee_recipient;
    buyback_fee_recipient = some p.buyback_fee_recipient;
    token_program = none;
    track_volume = none;
  }

  pool_pda-built : p.seed ≡ pos seed → seed < u64_mod → pool_pda w p.creator p.seed ≡ ok pool_key_of
  unfolding pool_pda
  pool_pda-built es hs = rw (es, write_u64-alloc seed hs) refl

  -- The accounts that the program passes on.
  abbrev passed : PumpAccounts
  passed =
      let buyer = pool_buyer_pda w pool_key_of in
      let bonding_curve = bonding_curve_pda w p.mint in
      record {
        global = info_of (account (global_pda w) false false);
        fee_recipient = info_of (account p.fee_recipient false true);
        mint = info_of (account p.mint false false);
        bonding_curve = info_of (account bonding_curve false true);
        associated_bonding_curve =
            info_of (
              account (w.associated_token_address p.mint bonding_curve w.token_program) false true);
        associated_user =
            info_of (account (w.associated_token_address p.mint buyer w.token_program) false true);
        buyer = info_of (account buyer false true);
        system_program = info_of (account w.system_program false false);
        token_program = info_of (account w.token_program false false);
        creator_vault = info_of (account (creator_vault_pda w buyer) false true);
        event_authority = info_of (account (event_authority_pda w) false false);
        pump_program = info_of (account (pump_program_id w) false false);
        global_volume_accumulator = info_of (account (global_volume_accumulator_pda w) false false);
        user_volume_accumulator =
            info_of (account (user_volume_accumulator_pda w buyer) false true);
        fee_config = info_of (account (fee_config_pda w) false false);
        fee_program = info_of (account (pump_fee_program_id w) false false);
        bonding_curve_v2 = info_of (account (bonding_curve_v2_pda w p.mint) false false);
        buyback_fee_recipient = info_of (account p.buyback_fee_recipient false true);
      }

  -- With a 64-bit seed and minimum the client builds an instruction whose data is the discriminator of
  -- complete_buy and the minimum; of its accounts the program takes those for the call of pump; and with
  -- them, for any 64-bit amount, it calls pump by the instruction that buildBuyExactSolInIx builds for
  -- the pool's buyer, as the creator of the token.
  pub complete_buy_relays :
      (seeds : List (List ℕ))
      → p.seed ≡ pos seed
      → p.min_tokens_out ≡ pos m
      → seed < u64_mod
      → m < u64_mod
      → v < u64_mod
      → (ix : Instruction) × (a : PumpAccounts) × (buy : Instruction) × (complete_buy_ix w p
          ≡ ok ix)
        × (take 8 ix.data_bytes ≡ anchor_disc w "complete_buy")
        × (read_u64 (drop 8 ix.data_bytes) ≡ ok (m, []))
        × (take_complete_buy (map info_of ix.keys) ≡ some a)
        × (build_buy_exact_sol_in_ix w as_pool_buyer ≡ ok buy)
        × (cpi_buy_exact_sol_in w s seeds a v m
            ≡ or_buy_failed (s.invoke_signed buy (infos a) seeds))
  unfolding complete_buy_ix complete_buy_keys take_complete_buy anchor_disc buy_keys
      associated_bonding_curve
  complete_buy_relays seeds es em hs hm hv =
      let d = anchor_disc w "complete_buy" in
      let e : length d ≡ 8 =
        length-take 8 (w.sha256 "global:complete_buy")
          (omega (arith, legal.hash_size "global:complete_buy")) in
      let args = le_bytes 8 m ++ [] in
      let ix : Instruction = record {
        program_id = batchit_program_id w;
        keys = complete_buy_keys w p pool_key_of;
        data_bytes = d ++ args;
      } in
      let (buy, built, called) =
        cpi-client w s seeds passed as_pool_buyer v m refl refl refl refl hv hm in
      let back : read_u64 (drop 8 (d ++ args)) ≡ ok (m, []) =
        rw (drop_prefix 8 d args e) ((read_u64-Reads m hm).at []) in
      (
        ix,
        passed,
        buy,
        rw (pool_pda-built es hs, em, write_u64-behind d m e hm) refl,
        take_prefix 8 d args e,
        back,
        refl,
        built,
        called,
      )
