-- ===== src/Escrow/Funding/Laws.antt =====
-- What a successful `create_pool` or `contribute` has done.
use batch_it_protocol.Prelude.{arith, false, ok, true, ℕ, ◌+◌, ◌<◌, ◌≡◌, ◌≤◌}
use batch_it_protocol.Prelude.Int.{ltb_ℤ, ℤ}
use batch_it_protocol.Prelude.Words.{u64_mod}
use batch_it_protocol.Escrow.Funding.{ContributeAccounts, contribute, create_pool}
use batch_it_protocol.Escrow.Runtime.{IsRuntime, Runtime}
use batch_it_protocol.Escrow.Types.{Pool, default_pubkey, opened}

-- A created pool is open and empty, its limits are ordered, and its window opens in the future and
-- closes after it opens.
pub create_pool_lem :
    (now : ℤ) (creator bump buyer_bump seed : ℕ) (launch_at grace_secs : ℤ)
    (min_raise max_pool min_contribution : ℕ) {p : Pool}
    → create_pool now creator bump buyer_bump seed launch_at grace_secs min_raise max_pool
        min_contribution
      ≡ ok p
    → (p.status ≡ opened)
      × (p.total_contributed ≡ 0)
      × (p.total_refunded ≡ 0)
      × (p.total_claimed ≡ 0)
      × (p.mint ≡ default_pubkey)
      × (p.max_pool_lamports ≡ max_pool)
      × (p.min_raise_lamports ≡ min_raise)
      × (0 < min_contribution)
      × (min_contribution ≤ min_raise)
      × (min_raise ≤ max_pool)
      × (ltb_ℤ now p.launch_at ≡ true)
      × (ltb_ℤ p.launch_at p.grace_ends_at ≡ true)
unfolding create_pool
create_pool_lem now creator bump buyer_bump seed launch_at grace_secs min_raise max_pool
      min_contribution e =
    ground arith

-- A successful contribution: the window was open, the limits hold, and the amount has moved from
-- the contributor into the pool and onto the contributor's record.
pub contribute_lem :
    (r : Runtime) (legal : IsRuntime r) (now : ℤ) (a : ContributeAccounts) (n : ℕ)
    {a' : ContributeAccounts}
    → contribute r now a n ≡ ok a'
    → (a.pool.status ≡ opened)
      × (a.pool.total_contributed + n ≤ a.pool.max_pool_lamports)
      × (a.pool.total_contributed + n < u64_mod)
      × (a'.pool ≡ record (a.pool) {
        contributor_count = a'.pool.contributor_count;
        total_contributed = a.pool.total_contributed + n;
      })
      × (a'.pool_lamports ≡ a.pool_lamports + n)
      × (a'.contributor_lamports + n ≡ a.contributor_lamports)
      × (a'.contribution.amount ≡ a.contribution.amount + n)
      × (a'.contribution.contributor ≡ a.contributor)
      × (a'.contribution.pool ≡ a.pool_key)
      × (a'.contribution.claimed ≡ false)
      × (a'.contribution.refunded ≡ false)
unfolding contribute
contribute_lem r legal now a n e =
    ground (arith, legal.system_moves a.contributor_lamports a.pool_lamports n)

-- A successful contribution was made before the launch time and is no smaller than the least one.
pub contribute_window :
    (r : Runtime) (now : ℤ) (a : ContributeAccounts) (n : ℕ) {a' : ContributeAccounts}
    → contribute r now a n ≡ ok a'
    → (ltb_ℤ now a.pool.launch_at ≡ true) × (0 < n) × (a.pool.min_contribution_lamports ≤ n)
unfolding contribute
contribute_window r now a n e = ground arith
