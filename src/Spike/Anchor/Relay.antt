-- ===== src/Spike/Anchor/Relay.antt =====
-- What the Anchor program makes of the instructions that its client builds.
use batch_it_protocol.Prelude.{
  Bool, false, Result-cases, [], arith, drop, inl, inr, lt→ltb, map, ok, refl, some, take, true,
  ==-refl, ℕ, ◌<◌, ◌≡◌, ◌∷◌,
}
use batch_it_protocol.Prelude.Int.{pos}
use batch_it_protocol.Prelude.Words.{u64_mod}
use batch_it_protocol.Escrow.Types.{Pubkey}
use batch_it_protocol.Web3.{Instruction, IsWeb3, Web3}
use batch_it_protocol.Web3.Buffer.{alloc, copy_to, write_u64}
use batch_it_protocol.Spike.Anchor.{
  Chain, buy_exact_sol_in_with_pda, check_buy, or_rejected, pump_buy, pump_infos, take_buy,
  two_left,
}
use batch_it_protocol.Spike.Lite.{Solana, buyer_pda}
use batch_it_protocol.Spike.Lite.Relay.{info_of, unsigned_info_of}
use batch_it_protocol.Spike.Program.{PdaBuyParams, anchor_disc, build_pda_buy_ix, pda_buy_keys}
use batch_it_protocol.Spike.Program.Data.{build_pda_buy_ix-data, read_buy_args}
use batch_it_protocol.Spike.Pump.Buy.{build_buy-built, direct_buy}
use batch_it_protocol.Spike.Pump.{
  BuyParams, associated_bonding_curve, build_buy_exact_sol_in_ix, buy_keys, or_default,
  pump_program_id,
}

-- The parameters of the direct buy by the program's address.
abbrev pub as_pda_buyer : Web3 → PdaBuyParams → BuyParams
as_pda_buyer w p = record {
  user = (buyer_pda w p.program_id).0;
  mint = p.mint;
  creator = p.creator;
  spendable_sol_in = p.spendable_sol_in;
  min_tokens_out = p.min_tokens_out;
  fee_recipient = p.fee_recipient;
  buyback_fee_recipient = some p.buyback_fee_recipient;
  token_program = p.token_program;
  track_volume = p.track_volume;
}

build_pda_buy_ix-keys :
    (w : Web3) (p : PdaBuyParams) {ix : Instruction}
    → build_pda_buy_ix w p ≡ ok ix
    → ix.keys ≡ pda_buy_keys w p
unfolding build_pda_buy_ix
build_pda_buy_ix-keys w p e =
    let start = copy_to 0 (anchor_disc w "buy_exact_sol_in_with_pda") (alloc 25) in
    elim (Result-cases (write_u64 p.spendable_sol_in 8 start)) [
      | inr (x, failed) ↦ absurd (ground arith)
      | inl (first, done) ↦ elim (Result-cases (write_u64 p.min_tokens_out 16 first)) [
        | inr (x, failed) ↦ absurd (ground arith)
        | inl (both, done') ↦ ground arith
      ]
    ]

module _ {ℓ} {S : Type ℓ} (w : Web3) (s : Solana S) (chain : Chain) (p : PdaBuyParams)
    (v m : ℕ) where
  abbrev direct : Instruction
  direct = direct_buy w (as_pda_buyer w p) v m

  abbrev pub token_program_of : Pubkey
  token_program_of = or_default p.token_program w.token_program

  handled :
      0 < v
      → chain.is_token_account
          (w.associated_token_address p.mint (buyer_pda w p.program_id).0 token_program_of)
        ≡ true
      → chain.is_token_program token_program_of ≡ true
      → buy_exact_sol_in_with_pda w s chain p.program_id
          (map info_of (pda_buy_keys w p))
          v
          m
          (or_default p.track_volume false)
        ≡ or_rejected (
            s.invoke_signed direct
              (map unsigned_info_of (buy_keys w (as_pda_buyer w p)))
              (w.utf8 "buyer" ∷ ((buyer_pda w p.program_id).1 ∷ []) ∷ []))
  unfolding buy_exact_sol_in_with_pda check_buy pump_buy pump_infos take_buy two_left pda_buy_keys
      buy_keys associated_bonding_curve
  handled h ht hp =
      rw
        (
          ht,
          hp,
          ==-refl w.system_program,
          ==-refl w.associated_token_program,
          ==-refl (buyer_pda w p.program_id).0,
          ==-refl (pump_program_id w),
          lt→ltb 0 v h,
        )
        refl

  -- With a positive amount to spend, and 64-bit amounts, the client builds an instruction whose data is
  -- the handler's discriminator and its arguments, and the handler, run on the instruction's accounts
  -- and these arguments, makes one call: the instruction that buildBuyExactSolInIx builds for the
  -- program's address as the user, on the same accounts, signed with that address's seeds. The buyer's
  -- token account is assumed to exist, and the token program to be one.
  pub pda_buy_relays :
      IsWeb3 w
      → p.spendable_sol_in ≡ pos v
      → p.min_tokens_out ≡ pos m
      → 0 < v
      → v < u64_mod
      → m < u64_mod
      → chain.is_token_account
          (w.associated_token_address p.mint (buyer_pda w p.program_id).0 token_program_of)
        ≡ true
      → chain.is_token_program token_program_of ≡ true
      → (ix : Instruction) × (buy : Instruction) × (build_pda_buy_ix w p ≡ ok ix)
        × (build_buy_exact_sol_in_ix w (as_pda_buyer w p) ≡ ok buy)
        × (take 8 ix.data_bytes ≡ anchor_disc w "buy_exact_sol_in_with_pda")
        × (args : ℕ × ℕ × Bool) × (read_buy_args (drop 8 ix.data_bytes) ≡ ok (args, []))
        × (buy_exact_sol_in_with_pda w s chain p.program_id
              (map info_of ix.keys)
              args.0
              args.1
              args.2
            ≡ or_rejected (
                s.invoke_signed buy
                  (map unsigned_info_of buy.keys)
                  (w.utf8 "buyer" ∷ ((buyer_pda w p.program_id).1 ∷ []) ∷ [])))
  pda_buy_relays legal ev em h hv hm ht hp =
      let (ix, built, disc, args) = build_pda_buy_ix-data w p v m legal ev em hv hm in
      (
        ix,
        direct,
        built,
        build_buy-built w (as_pda_buyer w p) v m ev em hv hm,
        disc,
        (v, m, or_default p.track_volume false),
        args,
        rw (build_pda_buy_ix-keys w p built) (handled h ht hp),
      )
