-- ===== src/Escrow/Launch.antt =====
-- programs/batchit/src/instructions/begin_launch.rs and complete_buy.rs.
pub mod Laws
use batch_it_protocol.Prelude.{
  Bool, List, Result, [], err, false, if◌then◌else◌, leb, ltb, not, ok, ok_or, true, ℕ, ◌&&◌, ◌-◌,
  ◌==◌, ◌>>=◌, ◌>>◌, ◌∷◌,
}
use batch_it_protocol.Prelude.Int.{leb_ℤ, ltb_ℤ, ℤ}
use batch_it_protocol.Prelude.Words.{checked_add, checked_sub, u64_mod}
use batch_it_protocol.Escrow.Math.{decode_bonding_curve_reserves}
use batch_it_protocol.Escrow.Runtime.{Market, Runtime}
use batch_it_protocol.Escrow.Types.{
  BondingCurveReserves, Failure, Pool, Pubkey, bad_status, bought, buy_failed, create_not_landed,
  default_pubkey, ensure, invalid_params, is_status, launch_grace_expired, launch_too_early,
  launching, min_raise_not_met, mint_already_set, mint_mismatch, mint_not_set, no_overflow, opened,
  program, zero_amount, zero_tokens_bought,
}

unfoldable pub begin_launch : ℤ → Pool → Pubkey → Result Failure Pool
begin_launch now p mint = do
  ensure (is_status p.status opened) bad_status
  ensure (not (mint == default_pubkey)) invalid_params
  ensure (leb_ℤ p.launch_at now) launch_too_early
  ensure (ltb_ℤ now p.grace_ends_at) launch_grace_expired
  ensure (leb p.min_raise_lamports p.total_contributed) min_raise_not_met
  ensure (p.mint == default_pubkey) mint_already_set
  ok (record p { mint = mint; status = launching })

pub record BuyAccounts : Type 0 where
  pub pool : Pool
  pub pool_lamports : ℕ
  -- the key of the `mint` account, and the owner of the `bonding_curve` account
  pub mint : Pubkey
  pub curve_owner : Pubkey
  -- the lamports of `buyer`, the account `associated_user`, the data of `bonding_curve`
  pub market : Market

abbrev pub no_reserves : BondingCurveReserves
no_reserves = record {
  virtual_token_reserves = 0;
  virtual_quote_reserves = 0;
  real_token_reserves = 0;
  real_quote_reserves = 0;
}

-- `result.unwrap_or(d)`
abbrev pub unwrap_or {ℓ} : {A : Type ℓ} → Result Failure A → A → A
unwrap_or (ok a) d = a
unwrap_or (err _) d = d

abbrev pub is_empty {ℓ} : {A : Type ℓ} → List A → Bool
is_empty [] = true
is_empty (_ ∷ _) = false

-- The part of `complete_buy` from the move of the lamports on. The call of pump maps each failure to
-- `BuyFailed`; the build without the feature `test-mock-buy` is modelled.
unfoldable pub execute_buy : Runtime → BuyAccounts → ℕ → Result Failure BuyAccounts
execute_buy r a min_tokens_out = do
  let spendable = a.pool.total_contributed
  ensure (ltb 0 spendable) zero_amount
  pool_lamports ← no_overflow (checked_sub a.pool_lamports spendable)
  buyer_lamports ← no_overflow (checked_add u64_mod a.market.buyer_lamports spendable)
  let funded : Market = record (a.market) { buyer_lamports = buyer_lamports }
  market ← ok_or (r.pump_buy funded spendable min_tokens_out) (program buy_failed)
  -- `saturating_sub`
  let tokens = market.associated_user.amount - a.market.associated_user.amount
  ensure (ltb 0 tokens) zero_tokens_bought
  let reserves = unwrap_or (decode_bonding_curve_reserves market.curve_data) no_reserves
  ok (record a {
    pool = record (a.pool) {
      tokens_bought = tokens;
      post_virtual_token_reserves = reserves.virtual_token_reserves;
      post_virtual_quote_reserves = reserves.virtual_quote_reserves;
      status = bought;
    };
    pool_lamports = pool_lamports;
    market = market;
  })

unfoldable pub complete_buy : Runtime → Pubkey → ℤ → BuyAccounts → ℕ → Result Failure BuyAccounts
complete_buy r pump_program now a min_tokens_out =
    let buying : Result Failure BuyAccounts = (do
      ensure (is_status a.pool.status launching) bad_status
      ensure (ltb_ℤ now a.pool.grace_ends_at) launch_grace_expired
      ensure (not (a.pool.mint == default_pubkey)) mint_not_set
      ensure (a.mint == a.pool.mint) mint_mismatch
      ensure (not (is_empty a.market.curve_data) && a.curve_owner == pump_program) create_not_landed
      execute_buy r a min_tokens_out) in
    if is_status a.pool.status bought then ok a else buying
