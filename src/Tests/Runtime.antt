-- ===== src/Tests/Runtime.antt =====
-- A runtime that meets the hypotheses on the system program, the token program and pump: transfers
-- and burns succeed when they are covered, and pump sells six tokens for a lamport.
use batch_it_protocol.Prelude.{
  List, [], arith, if◌then◌else◌, leb, ltb, none, some, ℕ, ◌&&◌, ◌*◌, ◌+◌, ◌-◌, ◌∷◌,
}
use batch_it_protocol.Prelude.Words.{u64_mod}
use batch_it_protocol.Escrow.Runtime.{IsRuntime, Runtime}

-- A curve with 100 virtual tokens and 20 lamports of virtual quote.
abbrev pub curve : List ℕ
curve =
    1 ∷ 2 ∷ 3 ∷ 4 ∷ 5 ∷ 6 ∷ 7 ∷ 8 ∷ 100 ∷ 0 ∷ 0 ∷ 0 ∷ 0 ∷ 0 ∷ 0 ∷ 0 ∷ 20 ∷ 0 ∷ 0 ∷ 0 ∷ 0 ∷ 0 ∷ 0 ∷ 0
    ∷ 0 ∷ 0 ∷ 0 ∷ 0 ∷ 0 ∷ 0 ∷ 0 ∷ 0 ∷ 0 ∷ 0 ∷ 0 ∷ 0 ∷ 0 ∷ 0 ∷ 0 ∷ 0 ∷ []

abbrev pub runtime : Runtime
runtime = record {
  system_transfer = λ a b n. if leb n a then some (a - n, b + n) else none;
  token_transfer = λ a b n. if leb n a && ltb (b + n) u64_mod then some (a - n, b + n) else none;
  token_burn = λ a n. if leb n a then some (a - n) else none;
  pump_buy = λ m spendable min_out.
      if leb spendable m.buyer_lamports && leb min_out (6 * spendable)
      then some (record m {
        buyer_lamports = m.buyer_lamports - spendable;
        associated_user = record (m.associated_user) {
          amount = m.associated_user.amount + 6 * spendable;
        };
        curve_data = curve;
      })
      else none;
  buyer_pda = λ k. k + 1;
}

pub runtime-IsRuntime : IsRuntime runtime
runtime-IsRuntime = record {
  system_moves = λ a b n. ground arith;
  token_moves = λ a b n. ground arith;
  token_covered = λ a b n h k. ground arith;
  burn_destroys = λ a n. ground arith;
  burn_covered = λ a n h. ground arith;
}
