-- ===== src/Spike/Lite/Data.antt =====
-- The bytes that the builders for the lite program write.
use batch_it_protocol.Prelude.{
  true, false, ap, sym, arith, List, [], length, length-append, ok, refl, ℕ, ◌++◌, ◌<◌, ◌≡◌, ◌∷◌,
}
use mathlib.Core.Path.{subst}
use mathlib.Core.List.{append_assoc}
use batch_it_protocol.Prelude.Bytes.{le_bytes, length-le_bytes}
use batch_it_protocol.Prelude.Int.{pos}
use batch_it_protocol.Prelude.Words.{u64_mod}
use batch_it_protocol.Web3.{Instruction, Web3}
use batch_it_protocol.Web3.Buffer.{alloc, set_byte, set_byte-middle, write_u64-middle}
use batch_it_protocol.Escrow.Types.{Pubkey}
use batch_it_protocol.Spike.Pump.{account}
use batch_it_protocol.Spike.Lite.{buyer_pda, fund_ix, LiteBuyParams, buy_ix, lite_buy_keys}

abbrev pub lite_buy_data : ℕ → ℕ → List ℕ
lite_buy_data v m = 1 ∷ (le_bytes 8 v ++ (le_bytes 8 m ++ (0 ∷ [])))

-- The last write, of the byte 0, changes nothing.
set_byte-last : (v m : ℕ) → set_byte 17 0 (lite_buy_data v m) ≡ lite_buy_data v m
set_byte-last v m =
    let front = 1 ∷ (le_bytes 8 v ++ le_bytes 8 m) in
    let size : length front ≡ 17 = omega (
      arith,
      length-append (le_bytes 8 v) (le_bytes 8 m),
      length-le_bytes 8 v,
      length-le_bytes 8 m,
    ) in
    let split : lite_buy_data v m ≡ front ++ (0 ∷ []) =
      ap (λ t. 1 ∷ t) (sym (append_assoc (le_bytes 8 v) (le_bytes 8 m) (0 ∷ []))) in
    subst (λ d. set_byte 17 0 d ≡ d) (sym split) (set_byte-middle 17 0 0 front [] size)

module _ (w : Web3) (p : LiteBuyParams) (v m : ℕ) where
  pub buy_ix-data :
      p.spendable_sol_in ≡ pos v
      → p.min_tokens_out ≡ pos m
      → v < u64_mod
      → m < u64_mod
      → buy_ix w p
        ≡ ok (record {
          program_id = p.program_id;
          keys = lite_buy_keys w p;
          data_bytes = lite_buy_data v m;
        })
  unfolding buy_ix
  buy_ix-data ev em hv hm =
      let first = write_u64-middle v 1 (1 ∷ []) (alloc 8) (alloc 9) hv refl refl in
      let second =
        write_u64-middle m 9 (1 ∷ le_bytes 8 v) (alloc 8) (0 ∷ []) hm
          (omega (arith, length-le_bytes 8 v)) refl in
      rw (ev, em, first, second, set_byte-last v m) refl

abbrev pub lite_fund : Web3 → Pubkey → Pubkey → ℕ → Instruction
lite_fund w program_id payer v = record {
  program_id = program_id;
  keys =
      account payer true true
      ∷ account (buyer_pda w program_id).0 false true
      ∷ account w.system_program false false
      ∷ [];
  data_bytes = 0 ∷ (le_bytes 8 v ++ []);
}

pub fund_ix-data :
    (w : Web3) (program_id payer : Pubkey) (v : ℕ)
    → v < u64_mod
    → fund_ix w program_id payer (pos v) ≡ ok (lite_fund w program_id payer v)
unfolding fund_ix
fund_ix-data w program_id payer v hv =
    rw (write_u64-middle v 1 (0 ∷ []) (alloc 8) [] hv refl refl) refl
