-- ===== src/Escrow/Ledger/Reopening.antt =====
-- What happens when the creator of a closed pool creates one again: the pool's address is derived from
-- the creator and the seed, and `close_pool` leaves the contribution accounts as they are.
use batch_it_protocol.Escrow.Funding
use batch_it_protocol.Prelude.{List, [], arith, false, is_ok, ok, ℕ, ◌<◌, ◌∷◌, ◌≡◌, ◌≢◌, some, ◌⊎◌}
use batch_it_protocol.Prelude.Int.{ℤ}
use batch_it_protocol.Prelude.Maps.{AllEntries, AllEntries-lookup, lookup, weight}
use batch_it_protocol.Prelude.Words.{u64_mod}
use batch_it_protocol.Escrow.Exit.{close_pool}
use batch_it_protocol.Escrow.Funding.{ContributeAccounts, create_pool}
use batch_it_protocol.Escrow.Ledger.{Ledger, contribute}
use batch_it_protocol.Escrow.Ledger.Guarantees.{Reachable-Inv}
use batch_it_protocol.Escrow.Ledger.Invariant.{IsEntry, amount_of}
use batch_it_protocol.Escrow.Ledger.Records.{Reachable-IsDistinct}
use batch_it_protocol.Escrow.Ledger.Steps.{IsLeftover, Reachable, created, start}
use batch_it_protocol.Escrow.Runtime.{IsRuntime, Runtime}
use batch_it_protocol.Escrow.Types.{
  Contribution, Pool, PoolStatus, Pubkey, closed, default_pubkey, finalized, refundable,
}

close_pool_done :
    (creator lamports : ℕ) (p : Pool) (pool_lamports : ℕ) {paid : ℕ}
    → close_pool creator lamports p pool_lamports ≡ ok paid
    → (p.total_contributed ≡ 0)
      × ((p.status ≡ refundable) ⊎ ((p.status ≡ finalized) ⊎ (p.status ≡ closed)))
unfolding close_pool
close_pool_done creator lamports p pool_lamports e = ground arith

entry-IsLeftover :
    (key : Pubkey) (s : PoolStatus) (who : Pubkey) (c : Contribution)
    → s ≡ refundable
    → c.amount ≡ 0
    → IsEntry key s who c
    → IsLeftover key who c
entry-IsLeftover key s who c hs hc h = ground arith

all-IsLeftover :
    (key : Pubkey) (s : PoolStatus) (m : List (Pubkey × Contribution))
    → s ≡ refundable
    → weight amount_of m ≡ 0
    → AllEntries (IsEntry key s) m
    → AllEntries (IsLeftover key) m
unfolding weight
all-IsLeftover key s [] hs hw h = tt
all-IsLeftover key s ((who, c) ∷ m) hs hw h = (
  entry-IsLeftover key s who c hs (omega (arith, hw)) h.0,
  all-IsLeftover key s m hs (omega (arith, hw)) h.1,
)

leftover_refused :
    (r : Runtime) (now : ℤ) (who bump wallet n : ℕ) (l : Ledger) (c : Contribution)
    → who ≢ default_pubkey
    → lookup who l.contributions ≡ some c
    → IsLeftover l.pool_key who c
    → is_ok (contribute r now who bump wallet n l) ≡ false
unfolding contribute Funding.contribute
leftover_refused r now who bump wallet n l c some_key found h = ground arith

-- When a reachable pool has been closed and its creator creates one again at the same address, the new
-- pool starts in a reachable state, so that all that is proved of those holds of it as well; but
-- everybody who had a contribution in the closed pool is locked out: the record that is left, emptied
-- and marked as refunded, makes every contribution of theirs to the new pool fail.
pub reopened_locks_out :
    (r : Runtime) (legal : IsRuntime r) (pump : Pubkey) (l : Ledger) (lamports : ℕ) (now : ℤ)
    (bump buyer_bump seed : ℕ) (launch_at grace_secs : ℤ) (min_raise max_pool min_contribution : ℕ)
    (paid : ℕ) (p : Pool) (rent : ℕ)
    → Reachable r pump l
    → close_pool l.pool.creator lamports l.pool l.pool_lamports ≡ ok paid
    → max_pool < u64_mod
    → create_pool now l.pool.creator bump buyer_bump seed launch_at grace_secs min_raise max_pool
        min_contribution
      ≡ ok p
    → Reachable r pump (record l { pool = p; pool_lamports = rent })
      × ((who : Pubkey) (c : Contribution) (when : ℤ) (b wallet n : ℕ)
          → who ≢ default_pubkey
          → lookup who l.contributions ≡ some c
          → is_ok (contribute r when who b wallet n (record l { pool = p; pool_lamports = rent }))
            ≡ false)
reopened_locks_out r legal pump l lamports now bump buyer_bump seed launch_at grace_secs min_raise
      max_pool min_contribution paid p rent reach done wide again =
    let v = Reachable-Inv r legal pump l reach in
    let (empty, ended) = close_pool_done l.pool.creator lamports l.pool l.pool_lamports done in
    let positive = v.settled_total in
    let unclosed = v.never_closed in
    let st : l.pool.status ≡ refundable = ground arith in
    let counted = v.counted in
    let left =
      all-IsLeftover l.pool_key l.pool.status l.contributions st (omega (arith, counted, empty))
        v.entries in
    (
      start (
          created now l.pool.creator bump buyer_bump seed launch_at grace_secs min_raise max_pool
            min_contribution wide again left (Reachable-IsDistinct r pump reach)),
      λ who c when b wallet n some_key found.
          leftover_refused r when who b wallet n (record l { pool = p; pool_lamports = rent }) c
            some_key found
            (AllEntries-lookup (IsLeftover l.pool_key) who l.contributions left found),
    )
