-- ===== src/Escrow/Funding.antt =====
-- programs/batchit/src/instructions/create_pool.rs and contribute.rs. A handler takes the accounts
-- that it reads and writes, and the clock; it returns the accounts, or the failure that rolls the
-- transaction back. The emitted events are left out.
pub mod Laws
use batch_it_protocol.Prelude.{
  Bool, Result, false, if◌then◌else◌, leb, ltb, not, ok, ok_or, ℕ, ◌&&◌, ◌==◌, ◌>>=◌, ◌>>◌, ◌||◌,
}
use batch_it_protocol.Prelude.Int.{ltb_ℤ, pos, ℤ, ◌+ℤ◌}
use batch_it_protocol.Prelude.Words.{checked_add, checked_add_i64, u32_mod, u64_mod}
use batch_it_protocol.Escrow.Runtime.{Runtime}
use batch_it_protocol.Escrow.Types.{
  Contribution, Failure, Pool, Pubkey, bad_status, call_failed, contribution_closed,
  contribution_too_small, default_pubkey, ensure, invalid_params, is_status, math_overflow,
  max_pool_exceeded, no_overflow, not_contributor, nothing_to_claim, nothing_to_refund, opened,
  program, zero_amount,
}

-- `create_pool` as a function from the creator's key, the two bumps and the arguments to the pool.
unfoldable pub create_pool : ℤ → Pubkey → ℕ → ℕ → ℕ → ℤ → ℤ → ℕ → ℕ → ℕ → Result Failure Pool
unfolding ◌+ℤ◌
create_pool now creator bump buyer_bump seed launch_at grace_secs min_raise max_pool
      min_contribution =
    do
      ensure (ltb_ℤ (pos 0) grace_secs) invalid_params
      ensure (ltb 0 min_contribution) invalid_params
      ensure (leb min_contribution min_raise) invalid_params
      ensure (leb min_raise max_pool) invalid_params
      ensure (ltb_ℤ now launch_at) invalid_params
      grace_ends_at ← ok_or (checked_add_i64 launch_at grace_secs) (program math_overflow)
      ok (record {
        bump = bump;
        buyer_bump = buyer_bump;
        status = opened;
        creator = creator;
        seed = seed;
        mint = default_pubkey;
        launch_at = launch_at;
        grace_ends_at = grace_ends_at;
        min_raise_lamports = min_raise;
        max_pool_lamports = max_pool;
        min_contribution_lamports = min_contribution;
        total_contributed = 0;
        contributor_count = 0;
        tokens_bought = 0;
        distributable = 0;
        burned = 0;
        post_virtual_token_reserves = 0;
        post_virtual_quote_reserves = 0;
        total_claimed = 0;
        total_refunded = 0;
      })

pub record ContributeAccounts : Type 0 where
  pub contributor : Pubkey
  pub contributor_lamports : ℕ
  pub pool_key : Pubkey
  pub pool : Pool
  pub pool_lamports : ℕ
  pub contribution : Contribution
  pub contribution_bump : ℕ

-- The test that a contribution account has not been written yet.
abbrev pub is_new : Contribution → Bool
is_new c =
    c.contributor == default_pubkey || (c.amount == 0 && not c.refunded && c.pool == default_pubkey)

-- The account after the block under `if is_new || contrib.contributor == Pubkey::default()`.
abbrev pub claim_account : ContributeAccounts → Contribution
claim_account a =
    if is_new a.contribution || a.contribution.contributor == default_pubkey
    then record (a.contribution) {
      bump = a.contribution_bump;
      pool = a.pool_key;
      contributor = a.contributor;
      claimed = false;
      refunded = false;
    }
    else a.contribution

-- `contributor_count` after that block.
abbrev pub count_contributor : ContributeAccounts → Result Failure ℕ
count_contributor a =
    if is_new a.contribution
    then no_overflow (checked_add u32_mod a.pool.contributor_count 1)
    else ok a.pool.contributor_count

unfoldable pub contribute : Runtime → ℤ → ContributeAccounts → ℕ → Result Failure ContributeAccounts
contribute r now a amount = do
  ensure (ltb 0 amount) zero_amount
  ensure (is_status a.pool.status opened) bad_status
  ensure (ltb_ℤ now a.pool.launch_at) contribution_closed
  ensure (leb a.pool.min_contribution_lamports amount) contribution_too_small
  new_total ← no_overflow (checked_add u64_mod a.pool.total_contributed amount)
  ensure (leb new_total a.pool.max_pool_lamports) max_pool_exceeded
  moved ← ok_or (r.system_transfer a.contributor_lamports a.pool_lamports amount) call_failed
  let c = claim_account a
  count ← count_contributor a
  ensure (c.contributor == a.contributor) not_contributor
  ensure (c.pool == a.pool_key) not_contributor
  ensure (not c.refunded) nothing_to_refund
  ensure (not c.claimed) nothing_to_claim
  new_amount ← no_overflow (checked_add u64_mod c.amount amount)
  ok (record a {
    contributor_lamports = moved.0;
    pool_lamports = moved.1;
    pool = record (a.pool) { contributor_count = count; total_contributed = new_total };
    contribution = record c { amount = new_amount };
  })
