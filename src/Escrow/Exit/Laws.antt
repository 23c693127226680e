-- ===== src/Escrow/Exit/Laws.antt =====
-- When a refund is possible, and what it and `mark_refundable` have done.
use batch_it_protocol.Prelude.{Bool, arith, err, false, ok, true, ℕ, ◌+◌, ◌-◌, ◌<◌, ◌≡◌, ◌≤◌, ◌⊎◌}
use batch_it_protocol.Prelude.Int.{leb_ℤ, ℤ}
use batch_it_protocol.Prelude.Words.{u64_mod}
use batch_it_protocol.Escrow.Exit.{
  RefundAccounts, close_pool, mark_refundable, refund, refund_allowed,
}
use batch_it_protocol.Escrow.Types.{
  Pool, PoolStatus, launching, opened, pool_not_empty, program, refundable,
}

-- `mark_refundable` succeeds only when the grace period is over and the pool is open or launching,
-- and changes only the status.
pub mark_refundable_lem :
    (now : ℤ) (p : Pool) {p' : Pool}
    → mark_refundable now p ≡ ok p'
    → ((p.status ≡ launching) ⊎ (p.status ≡ opened))
      × (leb_ℤ p.grace_ends_at now ≡ true)
      × (p' ≡ record p { status = refundable })
unfolding mark_refundable
mark_refundable_lem now p e = ground arith

pub refund_allowed-cases :
    (s : PoolStatus) (grace_over : Bool)
    → refund_allowed s grace_over ≡ true
    → (s ≡ refundable) ⊎ ((grace_over ≡ true) × ((s ≡ launching) ⊎ (s ≡ opened)))
unfolding refund_allowed
refund_allowed-cases refundable g h = ground arith
refund_allowed-cases _ g h = ground arith

pub refund_allowed-holds :
    (s : PoolStatus) (grace_over : Bool)
    → grace_over ≡ true
    → (s ≡ opened) ⊎ ((s ≡ launching) ⊎ (s ≡ refundable))
    → refund_allowed s grace_over ≡ true
unfolding refund_allowed
refund_allowed-holds s g over h = ground arith

-- A successful refund: the pool was refundable, or its grace period was over with no buy; the whole
-- contribution has moved from the pool to the contributor, and the record is emptied and marked.
pub refund_lem :
    (now : ℤ) (a : RefundAccounts) {a' : RefundAccounts}
    → refund now a ≡ ok a'
    → (refund_allowed a.pool.status (leb_ℤ a.pool.grace_ends_at now) ≡ true)
      × (a.contribution.refunded ≡ false)
      × (a.contribution.claimed ≡ false)
      × (0 < a.contribution.amount)
      × (a'.pool_lamports + a.contribution.amount ≡ a.pool_lamports)
      × (a'.contributor_lamports ≡ a.contributor_lamports + a.contribution.amount)
      × (a'.pool ≡ record (a.pool) {
        status = refundable;
        total_contributed = a.pool.total_contributed - a.contribution.amount;
        total_refunded = a.pool.total_refunded + a.contribution.amount;
      })
      × (a.contribution.amount ≤ a.pool.total_contributed)
      × (a'.contribution ≡ record (a.contribution) { amount = 0; refunded = true })
unfolding refund
refund_lem now a e = ground arith

-- Once the pool is refundable, or open or launching past its grace period, a contributor whose
-- contribution is still there gets all of it back: no other state of the accounts can refuse it.
pub refund_pays :
    (now : ℤ) (a : RefundAccounts)
    → refund_allowed a.pool.status (leb_ℤ a.pool.grace_ends_at now) ≡ true
    → a.contribution.pool ≡ a.pool_key
    → a.contribution.contributor ≡ a.contributor
    → a.contribution.refunded ≡ false
    → a.contribution.claimed ≡ false
    → 0 < a.contribution.amount
    → a.contribution.amount ≤ a.pool.total_contributed
    → a.contribution.amount ≤ a.pool_lamports
    → a.pool.total_refunded + a.contribution.amount < u64_mod
    → a.contributor_lamports + a.contribution.amount < u64_mod
    → refund now a
      ≡ ok (record a {
        contributor_lamports = a.contributor_lamports + a.contribution.amount;
        pool_lamports = a.pool_lamports - a.contribution.amount;
        pool = record (a.pool) {
          status = refundable;
          total_contributed = a.pool.total_contributed - a.contribution.amount;
          total_refunded = a.pool.total_refunded + a.contribution.amount;
        };
        contribution = record (a.contribution) { amount = 0; refunded = true };
      })
unfolding refund
refund_pays now a h1 h2 h3 h4 h5 h6 h7 h8 h9 h10 = ground arith

-- `close_pool` refuses a pool that still counts contributions.
pub close_pool_lem :
    (creator lamports : ℕ) (p : Pool) (pool_lamports : ℕ)
    → p.creator ≡ creator
    → 0 < p.total_contributed
    → close_pool creator lamports p pool_lamports ≡ err (program pool_not_empty)
unfolding close_pool
close_pool_lem creator lamports p pool_lamports hc ht = ground arith
