-- ===== src/Spike/Pump/Buy.antt =====
-- The instruction that buildBuyExactSolInIx builds, when its amounts fit 64 bits.
use batch_it_protocol.Prelude.{[], false, ok, refl, ℕ, ◌++◌, ◌<◌, ◌≡◌, ◌∷◌}
use mathlib.Core.List.{append-nil}
use batch_it_protocol.Prelude.Bytes.{le_bytes}
use batch_it_protocol.Prelude.Int.{pos}
use batch_it_protocol.Prelude.Words.{u64_mod}
use batch_it_protocol.Web3.{Instruction, Web3}
use batch_it_protocol.Web3.Buffer.{write_u64-alloc}
use batch_it_protocol.Web3.Reader.{flag}
use batch_it_protocol.Spike.Pump.{
  BuyParams, build_buy_exact_sol_in_ix, buy_exact_sol_in_discriminator, buy_keys, or_default,
  pump_program_id,
}

-- The buy to spend `v` for at least `m`.
abbrev pub direct_buy : Web3 → BuyParams → ℕ → ℕ → Instruction
direct_buy w p v m = record {
  program_id = pump_program_id w;
  keys = buy_keys w p;
  data_bytes =
      buy_exact_sol_in_discriminator
      ++ (le_bytes 8 v ++ (le_bytes 8 m ++ (flag (or_default p.track_volume false) ∷ [])));
}

pub build_buy-built :
    (w : Web3) (p : BuyParams) (v m : ℕ)
    → p.spendable_sol_in ≡ pos v
    → p.min_tokens_out ≡ pos m
    → v < u64_mod
    → m < u64_mod
    → build_buy_exact_sol_in_ix w p ≡ ok (direct_buy w p v m)
unfolding build_buy_exact_sol_in_ix
build_buy-built w p v m ev em hv hm =
    rw
      (
        ev,
        em,
        write_u64-alloc v hv,
        write_u64-alloc m hm,
        append-nil (le_bytes 8 v),
        append-nil (le_bytes 8 m),
      )
      refl
