-- ===== src/Spike/Lite/Relay.antt =====
-- What the lite program makes of the instructions that its client builds.
use batch_it_protocol.Prelude.{
  ≤→leb, ==-refl, ◌==◌, true, leb, take, drop, arith, [], false, length, length-append, map, none,
  ok, refl, some, ℕ, ◌++◌, ◌<◌, ◌≡◌, ◌∷◌,
}
use mathlib.Core.List.{append_assoc}
use batch_it_protocol.Prelude.Bytes.{
  le_bytes, from_le_bytes, from_le_bytes-le_bytes, length-le_bytes,
}
use batch_it_protocol.Prelude.Int.{pos}
use batch_it_protocol.Prelude.Words.{u64_mod}
use batch_it_protocol.Escrow.Types.{Pubkey}
use batch_it_protocol.Web3.{AccountMeta, Instruction, Web3}
use batch_it_protocol.Web3.Buffer.{take_prefix, drop_prefix}
use batch_it_protocol.Spike.Lite.{
  AccountInfo, LiteBuyParams, parse_buy, Solana, buy_exact_sol_in_with_pda, buy_ix, buyer_pda,
  fund_ix, lite_buy_keys, process_instruction, fund_buyer,
}
use batch_it_protocol.Spike.Lite.Data.{buy_ix-data, fund_ix-data, lite_buy_data, lite_fund}
use batch_it_protocol.Spike.Pump.Buy.{build_buy-built, direct_buy}
use batch_it_protocol.Spike.Pump.{
  pump_program_id, BuyParams, build_buy_exact_sol_in_ix, buy_keys, associated_bonding_curve,
}

-- The accounts that the runtime hands to a program for the ones an instruction names.
abbrev pub info_of : AccountMeta → AccountInfo
info_of a = record { key = a.pubkey; is_signer = a.is_signer; is_writable = a.is_writable }

-- The same without the signature, which a program-derived address cannot give.
abbrev pub unsigned_info_of : AccountMeta → AccountInfo
unsigned_info_of a = record { key = a.pubkey; is_signer = false; is_writable = a.is_writable }

-- The parameters of the direct buy by the program's address.
abbrev pub as_buyer : Web3 → LiteBuyParams → BuyParams
as_buyer w p = record {
  user = (buyer_pda w p.program_id).0;
  mint = p.mint;
  creator = p.creator;
  spendable_sol_in = p.spendable_sol_in;
  min_tokens_out = p.min_tokens_out;
  fee_recipient = p.fee_recipient;
  buyback_fee_recipient = some p.buyback_fee_recipient;
  token_program = none;
  track_volume = none;
}

-- The program reads back the amounts that its client writes.
parse_buy-data :
    (v m : ℕ)
    → 0 < v
    → v < u64_mod
    → m < u64_mod
    → parse_buy (le_bytes 8 v ++ (le_bytes 8 m ++ (0 ∷ []))) ≡ ok (v, m, false)
unfolding parse_buy
parse_buy-data v m h hv hm =
    let tail = le_bytes 8 m ++ (0 ∷ []) in
    let n = length-le_bytes 8 v in
    let k = length-le_bytes 8 m in
    let enough : leb 17 (length (le_bytes 8 v ++ tail)) ≡ true = ≤→leb _ _ (
      omega
        (arith, length-append (le_bytes 8 v) tail, length-append (le_bytes 8 m) (0 ∷ []), n, k)) in
    let first : from_le_bytes (take 8 (le_bytes 8 v ++ tail)) ≡ v =
      rw (take_prefix 8 (le_bytes 8 v) tail n) (from_le_bytes-le_bytes 8 v hv) in
    let positive : (v == 0) ≡ false = ground arith in
    let second : from_le_bytes (take 8 (drop 8 (le_bytes 8 v ++ tail))) ≡ m =
      rw (drop_prefix 8 (le_bytes 8 v) tail n, take_prefix 8 (le_bytes 8 m) (0 ∷ []) k)
        (from_le_bytes-le_bytes 8 m hm) in
    let third : drop 16 (le_bytes 8 v ++ tail) ≡ 0 ∷ [] =
      rw (← append_assoc (le_bytes 8 v) (le_bytes 8 m) (0 ∷ [])) (
        drop_prefix 16 (le_bytes 8 v ++ le_bytes 8 m) (0 ∷ [])
          (omega (arith, length-append (le_bytes 8 v) (le_bytes 8 m), n, k))) in
    rw (enough, first, positive, second, third) refl

module _ {ℓ} {S : Type ℓ} (w : Web3) (s : Solana S) (p : LiteBuyParams) (v m : ℕ) where
  abbrev direct : Instruction
  direct = direct_buy w (as_buyer w p) v m

  process_instruction-buy :
      0 < v
      → v < u64_mod
      → m < u64_mod
      → process_instruction w s p.program_id (map info_of (lite_buy_keys w p)) (lite_buy_data v m)
        ≡ s.invoke_signed direct
            (map unsigned_info_of (buy_keys w (as_buyer w p)))
            (w.utf8 "buyer" ∷ ((buyer_pda w p.program_id).1 ∷ []) ∷ [])
  unfolding process_instruction buy_exact_sol_in_with_pda lite_buy_keys buy_keys
      associated_bonding_curve
  process_instruction-buy h hv hm =
      rw
        (
          parse_buy-data v m h hv hm,
          ==-refl (buyer_pda w p.program_id).0,
          ==-refl (pump_program_id w),
        )
        refl

  -- With a positive amount to spend, and 64-bit amounts, the client builds an instruction, and the lite
  -- program, run on its accounts and its data, makes one call: the instruction that buildBuyExactSolInIx
  -- builds for the program's address as the user, on the same accounts, signed with that address's seeds.
  pub lite_buy_relays :
      p.spendable_sol_in ≡ pos v
      → p.min_tokens_out ≡ pos m
      → 0 < v
      → v < u64_mod
      → m < u64_mod
      → (ix : Instruction) × (buy : Instruction) × (buy_ix w p ≡ ok ix)
        × (build_buy_exact_sol_in_ix w (as_buyer w p) ≡ ok buy)
        × (process_instruction w s ix.program_id (map info_of ix.keys) ix.data_bytes
            ≡ s.invoke_signed buy
                (map unsigned_info_of buy.keys)
                (w.utf8 "buyer" ∷ ((buyer_pda w p.program_id).1 ∷ []) ∷ []))
  lite_buy_relays ev em h hv hm = (
    _,
    direct,
    buy_ix-data w p v m ev em hv hm,
    build_buy-built w (as_buyer w p) v m ev em hv hm,
    process_instruction-buy h hv hm,
  )

module _ {ℓ} {S : Type ℓ} (w : Web3) (s : Solana S) (program_id payer : Pubkey) (v : ℕ) where
  -- With a positive 64-bit amount the client builds an instruction on which the lite program moves
  -- exactly that amount from the payer, who signs, to the program's address.
  pub lite_fund_transfers :
      0 < v
      → v < u64_mod
      → (ix : Instruction) × (fund_ix w program_id payer (pos v) ≡ ok ix)
        × (process_instruction w s program_id (map info_of ix.keys) ix.data_bytes
            ≡ s.invoke_signed
                (s.transfer payer (buyer_pda w program_id).0 v)
                (map info_of ix.keys)
                [])
  unfolding process_instruction fund_buyer
  lite_fund_transfers h hv =
      let n = length-le_bytes 8 v in
      let enough : leb 8 (length (le_bytes 8 v ++ [])) ≡ true =
        ≤→leb _ _ (omega (arith, length-append (le_bytes 8 v) [], n)) in
      let amount : from_le_bytes (take 8 (le_bytes 8 v ++ [])) ≡ v =
        rw (take_prefix 8 (le_bytes 8 v) [] n) (from_le_bytes-le_bytes 8 v hv) in
      let positive : (v == 0) ≡ false = ground arith in
      let ix = lite_fund w program_id payer v in
      (
        ix,
        fund_ix-data w program_id payer v hv,
        rw (enough, amount, positive, ==-refl (buyer_pda w program_id).0, ==-refl w.system_program)
            refl,
      )
