-- ===== src/Burn.antt =====
-- packages/core/src/burn.ts: the split of the tokens bought. A `bigint` is a ℤ, a thrown `Error` is
-- an error value, and the `number`s of `projectedBurnRatio` are a parameter.
pub mod Split
pub mod Allocations
use batch_it_protocol.Prelude.{Result, ok, ◌>>=◌, ◌>>◌, require, if◌then◌else◌, ◌||◌}
use batch_it_protocol.Prelude.Int.{ℤ, pos, ltb_ℤ, leb_ℤ, eq_ℤ, ◌-ℤ◌, ◌*ℤ◌, ◌/ℤ◌}

pub record BurnBreakdown : Type 0 where
  pub distributable : ℤ
  pub burned : ℤ
  pub total_contributed : ℤ
  pub tokens_bought : ℤ
  pub post_virtual_token_reserves : ℤ
  pub post_virtual_quote_reserves : ℤ

pub data BurnError : Type 0 where
  zero_tokens_bought zero_quote_reserves zero_contribution zero_total : BurnError

unfoldable pub compute_distributable : ℤ → ℤ → ℤ → ℤ → Result BurnError BurnBreakdown
unfolding ◌-ℤ◌ ◌*ℤ◌ ◌/ℤ◌
compute_distributable total bought vtok vquote = do
  require (ltb_ℤ (pos 0) bought) zero_tokens_bought
  require (ltb_ℤ (pos 0) vquote) zero_quote_reserves
  require (ltb_ℤ (pos 0) total) zero_contribution
  let uncapped = total *ℤ vtok /ℤ vquote
  let distributable : ℤ = if ltb_ℤ bought uncapped then bought else uncapped
  ok (record {
    distributable = distributable;
    burned = bought -ℤ distributable;
    total_contributed = total;
    tokens_bought = bought;
    post_virtual_token_reserves = vtok;
    post_virtual_quote_reserves = vquote;
  })

unfoldable pub allocation : ℤ → ℤ → ℤ → Result BurnError ℤ
unfolding ◌*ℤ◌ ◌/ℤ◌
allocation distributable contribution total = do
  require (ltb_ℤ (pos 0) total) zero_total
  if leb_ℤ contribution (pos 0) || leb_ℤ distributable (pos 0)
      then ok (pos 0)
      else ok (distributable *ℤ contribution /ℤ total)

-- JavaScript's `Number(b)` and `/` on numbers, which are floating point.
pub record Floats : Type 1 where
  pub Number : Type 0
  pub number : ℤ → Number
  pub divide : Number → Number → Number

module _ (f : Floats) where
  open f use {Number, number, divide}

  pub projected_burn_ratio : ℤ → ℤ → ℤ → ℤ → Result BurnError Number
  unfolding compute_distributable
  projected_burn_ratio total estimated vtok vquote = do
    r ← compute_distributable total estimated vtok vquote
    if eq_ℤ r.tokens_bought (pos 0)
        then ok (number (pos 0))
        else ok (divide (number r.burned) (number r.tokens_bought))
