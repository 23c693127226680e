-- ===== src/Escrow/Settlement.antt =====
-- programs/batchit/src/instructions/finalize.rs and claim.rs, with the constraints that their
-- `#[derive(Accounts)]` structures declare.
pub mod Laws
pub mod Price
pub mod Claims
use batch_it_protocol.Prelude.{
  List, Result, if◌then◌else◌, leb, length, ltb, not, ok, ok_or, require, true, ℕ, ◌&&◌, ◌==◌,
  ◌>>=◌, ◌>>◌, ◌||◌,
}
use batch_it_protocol.Prelude.Words.{checked_add, u64_mod}
use batch_it_protocol.Escrow.Math.{allocation, compute_distributable, decode_bonding_curve_reserves}
use batch_it_protocol.Escrow.Runtime.{Runtime}
use batch_it_protocol.Escrow.Types.{
  Contribution, Failure, Pool, Pubkey, bad_status, bought, call_failed, claim_not_allowed, ensure,
  finalized, has_one_violated, is_status, math_overflow, mint_mismatch, no_overflow, TokenAccount,
  not_contributor, nothing_to_claim, unauthorized, zero_tokens_bought,
}

pub record FinalizeAccounts : Type 0 where
  pub pool_key : Pubkey
  pub pool : Pool
  pub associated_user : TokenAccount
  -- the data of whatever account the caller passes as `bonding_curve`
  pub curve_data : List ℕ

-- The reserves that set the price: those in the account passed, if it holds 40 bytes.
unfoldable pub price_reserves : FinalizeAccounts → Result Failure (ℕ × ℕ)
price_reserves a =
    if leb 40 (length a.curve_data)
    then (decode_bonding_curve_reserves a.curve_data >>= λ d.
        ok (d.virtual_token_reserves, d.virtual_quote_reserves))
    else ok (a.pool.post_virtual_token_reserves, a.pool.post_virtual_quote_reserves)

-- `if burned > 0 { token::burn(...) }`
unfoldable pub burn_surplus : Runtime → ℕ → ℕ → Result Failure ℕ
burn_surplus r amount burned =
    if ltb 0 burned then ok_or (r.token_burn amount burned) call_failed else ok amount

unfoldable pub finalize : Runtime → FinalizeAccounts → Result Failure FinalizeAccounts
finalize r a = do
  ensure (a.associated_user.owner == r.buyer_pda a.pool_key) unauthorized
  ensure (a.associated_user.mint == a.pool.mint) mint_mismatch
  ensure (is_status a.pool.status bought) bad_status
  ensure (ltb 0 a.pool.tokens_bought) zero_tokens_bought
  (vtok, vquote) ← price_reserves a
  ensure (ltb 0 vquote && ltb 0 vtok) math_overflow
  (distributable, burned) ←
      (compute_distributable a.pool.total_contributed a.pool.tokens_bought vtok vquote)
  left ← burn_surplus r a.associated_user.amount burned
  ok (record a {
    associated_user = record (a.associated_user) { amount = left };
    pool = record (a.pool) {
      distributable = distributable;
      burned = burned;
      post_virtual_token_reserves = vtok;
      post_virtual_quote_reserves = vquote;
      status = finalized;
    };
  })

pub record ClaimAccounts : Type 0 where
  pub contributor : Pubkey
  pub pool_key : Pubkey
  pub pool : Pool
  pub contribution : Contribution
  pub vault_ata : TokenAccount
  pub contributor_ata : TokenAccount

-- `if tokens > 0 { token::transfer(...) }`: the tokens left in the vault and those of the contributor.
unfoldable pub pay_tokens : Runtime → ClaimAccounts → ℕ → Result Failure (ℕ × ℕ)
pay_tokens r a tokens =
    if ltb 0 tokens
    then ok_or (r.token_transfer a.vault_ata.amount a.contributor_ata.amount tokens) call_failed
    else ok (a.vault_ata.amount, a.contributor_ata.amount)

unfoldable pub claim : Runtime → ClaimAccounts → Result Failure ClaimAccounts
claim r a = do
  require (a.contribution.pool == a.pool_key) has_one_violated
  ensure (a.vault_ata.owner == r.buyer_pda a.pool_key) unauthorized
  ensure (a.vault_ata.mint == a.pool.mint) mint_mismatch
  ensure (a.contributor_ata.owner == a.contributor) unauthorized
  ensure (a.contributor_ata.mint == a.pool.mint) mint_mismatch
  ensure (is_status a.pool.status finalized) claim_not_allowed
  ensure (a.contribution.contributor == a.contributor) not_contributor
  ensure (not a.contribution.claimed) nothing_to_claim
  ensure (not a.contribution.refunded) nothing_to_claim
  ensure (ltb 0 a.contribution.amount) nothing_to_claim
  tokens ← allocation a.pool.distributable a.contribution.amount a.pool.total_contributed
  ensure (ltb 0 tokens || a.pool.distributable == 0) nothing_to_claim
  (vault, wallet) ← pay_tokens r a tokens
  total_claimed ← no_overflow (checked_add u64_mod a.pool.total_claimed tokens)
  ok (record a {
    vault_ata = record (a.vault_ata) { amount = vault };
    contributor_ata = record (a.contributor_ata) { amount = wallet };
    contribution = record (a.contribution) { claimed = true };
    pool = record (a.pool) { total_claimed = total_claimed };
  })
