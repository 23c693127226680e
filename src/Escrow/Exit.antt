-- ===== src/Escrow/Exit.antt =====
-- programs/batchit/src/instructions/mark_refundable.rs, refund.rs and close_pool.rs.
pub mod Laws
use batch_it_protocol.Prelude.{
  Bool, Result, false, if◌then◌else◌, ltb, not, ok, require, true, ℕ, ◌&&◌, ◌==◌, ◌>>=◌, ◌>>◌, ◌||◌,
}
use batch_it_protocol.Prelude.Int.{leb_ℤ, ℤ}
use batch_it_protocol.Prelude.Words.{checked_add, checked_sub, u64_mod}
use batch_it_protocol.Escrow.Types.{
  Contribution, Failure, Pool, PoolStatus, Pubkey, bad_status, bought, closed, ensure, finalized,
  has_one_violated, is_status, launch_too_early, launching, no_overflow, not_contributor,
  nothing_to_refund, opened, pool_not_empty, refund_not_allowed, refundable,
}

unfoldable pub mark_refundable : ℤ → Pool → Result Failure Pool
mark_refundable now p = do
  ensure (leb_ℤ p.grace_ends_at now) launch_too_early
  ensure (is_status p.status launching || is_status p.status opened) bad_status
  ok (record p { status = refundable })

pub record RefundAccounts : Type 0 where
  pub contributor : Pubkey
  pub contributor_lamports : ℕ
  pub pool_key : Pubkey
  pub pool : Pool
  pub pool_lamports : ℕ
  pub contribution : Contribution

-- The `match` on the status.
unfoldable pub refund_allowed : PoolStatus → Bool → Bool
refund_allowed refundable grace_over = true
refund_allowed launching grace_over = grace_over
refund_allowed opened grace_over = grace_over
refund_allowed bought grace_over = false
refund_allowed finalized grace_over = false
refund_allowed closed grace_over = false

-- The status after the automatic transition.
unfoldable pub refund_status : PoolStatus → Bool → PoolStatus
refund_status s grace_over =
    if is_status s launching || is_status s opened
    then if grace_over && not (is_status s bought) then refundable else s
    else s

unfoldable pub refund : ℤ → RefundAccounts → Result Failure RefundAccounts
unfolding refund_allowed refund_status
refund now a = do
  let grace_over = leb_ℤ a.pool.grace_ends_at now
  -- `has_one = pool`
  require (a.contribution.pool == a.pool_key) has_one_violated
  ensure (refund_allowed a.pool.status grace_over) refund_not_allowed
  ensure (a.contribution.contributor == a.contributor) not_contributor
  ensure (not a.contribution.refunded) nothing_to_refund
  ensure (not a.contribution.claimed) nothing_to_refund
  ensure (ltb 0 a.contribution.amount) nothing_to_refund
  let amount = a.contribution.amount
  total_contributed ← no_overflow (checked_sub a.pool.total_contributed amount)
  total_refunded ← no_overflow (checked_add u64_mod a.pool.total_refunded amount)
  pool_lamports ← no_overflow (checked_sub a.pool_lamports amount)
  contributor_lamports ← no_overflow (checked_add u64_mod a.contributor_lamports amount)
  ok (record a {
    contributor_lamports = contributor_lamports;
    pool_lamports = pool_lamports;
    pool = record (a.pool) {
      status = refund_status a.pool.status grace_over;
      total_contributed = total_contributed;
      total_refunded = total_refunded;
    };
    contribution = record (a.contribution) { amount = 0; refunded = true };
  })

-- `close_pool` pays the account's lamports to the creator: the lamports of the creator afterwards.
-- The first test is `has_one = creator`.
unfoldable pub close_pool : Pubkey → ℕ → Pool → ℕ → Result Failure ℕ
close_pool creator creator_lamports p pool_lamports = do
  require (p.creator == creator) has_one_violated
  ensure (p.total_contributed == 0) pool_not_empty
  ensure
      (is_status p.status refundable || is_status p.status finalized || is_status p.status closed)
      bad_status
  ensure (p.total_contributed == 0) pool_not_empty
  no_overflow (checked_add u64_mod creator_lamports pool_lamports)
