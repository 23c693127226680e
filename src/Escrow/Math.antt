-- ===== src/Escrow/Math.antt =====
-- programs/batchit/src/math.rs, and `decode_bonding_curve_reserves` of pump.rs.
pub mod Laws
pub mod Agreement
use batch_it_protocol.Prelude.{
  List, Result, [], drop, if◌then◌else◌, leb, length, ltb, ok, take, ℕ, ◌%◌, ◌*◌, ◌+◌, ◌/◌, ◌==◌,
  ◌>>=◌, ◌>>◌, ◌||◌, ◌∷◌,
}
use batch_it_protocol.Prelude.Bytes.{from_le_bytes}
use batch_it_protocol.Prelude.Words.{checked_div, checked_mul, checked_sub, u128_mod, u64_mod}
use batch_it_protocol.Escrow.Types.{
  BondingCurveReserves, Failure, create_not_landed, ensure, math_overflow, no_overflow, zero_amount,
  zero_tokens_bought,
}

unfoldable pub compute_distributable : ℕ → ℕ → ℕ → ℕ → Result Failure (ℕ × ℕ)
compute_distributable total tokens vtok vquote = do
  ensure (ltb 0 tokens) zero_tokens_bought
  ensure (ltb 0 vquote) math_overflow
  ensure (ltb 0 total) zero_amount
  num ← no_overflow (checked_mul u128_mod total vtok)
  quotient ← no_overflow (checked_div num vquote)
  -- `as u64`
  let uncapped = quotient % u64_mod
  let distributable : ℕ = if ltb tokens uncapped then tokens else uncapped
  burned ← no_overflow (checked_sub tokens distributable)
  ok (distributable, burned)

unfoldable pub allocation : ℕ → ℕ → ℕ → Result Failure ℕ
allocation distributable contribution total = do
  ensure (ltb 0 total) zero_amount
  if contribution == 0 || distributable == 0
      then ok 0
      else (no_overflow (checked_mul u128_mod distributable contribution) >>= λ n.
          ok (n / total % u64_mod))

-- `&d[from..from + 8]`
abbrev pub u64_at : ℕ → List ℕ → ℕ
u64_at from d = from_le_bytes (take 8 (drop from d))

unfoldable pub decode_bonding_curve_reserves : List ℕ → Result Failure BondingCurveReserves
decode_bonding_curve_reserves bytes = do
  ensure (leb 40 (length bytes)) create_not_landed
  let d = drop 8 bytes
  ok (record {
    virtual_token_reserves = u64_at 0 d;
    virtual_quote_reserves = u64_at 8 d;
    real_token_reserves = u64_at 16 d;
    real_quote_reserves = u64_at 24 d;
  })
