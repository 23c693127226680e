-- ===== src/Escrow/Ledger/Invariant.antt =====
-- What holds of a pool between two transactions.
use batch_it_protocol.Prelude.{
  Bool, false, true, if◌then◌else◌, ℕ, ◌+◌, ◌<◌, ◌||◌, ◌≡◌, ◌≢◌, ◌≤◌, ◌⊎◌,
}
use batch_it_protocol.Prelude.Division.{share}
use batch_it_protocol.Prelude.Maps.{AllEntries, weight}
use batch_it_protocol.Prelude.Words.{u64_mod}
use batch_it_protocol.Escrow.Ledger.{Ledger}
use batch_it_protocol.Escrow.Types.{
  Contribution, PoolStatus, Pubkey, bought, closed, finalized, is_status, launching, opened,
  refundable,
}

abbrev pub amount_of : Contribution → ℕ
amount_of c = c.amount

-- The tokens still owed on a contribution, when `d` are distributed over `t` lamports.
abbrev pub owed_on : ℕ → ℕ → Contribution → ℕ
owed_on d t c = if c.claimed then 0 else share d t c.amount

-- A contribution record of the contributor `who`, in a pool with the key and the status given.
pub record IsEntry (key : Pubkey) (s : PoolStatus) (who : Pubkey) (c : Contribution) : Type 0 where
  pub own : c.contributor ≡ who
  pub in_pool : c.pool ≡ key
  pub unclaimed : (s ≡ finalized) ⊎ (c.claimed ≡ false)
  -- a record is empty once its contribution is refunded, and only then
  pub emptied : ((c.refunded ≡ false) × (0 < c.amount)) ⊎ ((c.refunded ≡ true) × (c.amount ≡ 0))

-- The escrow holds its lamports: no buy has been made.
abbrev pub holds_lamports : PoolStatus → Bool
holds_lamports s = is_status s opened || (is_status s launching || is_status s refundable)

pub record Inv (l : Ledger) : Type 0 where
  -- the contributions add up to the total, within the cap
  pub counted : weight amount_of l.contributions ≡ l.pool.total_contributed
  pub capped : l.pool.total_contributed + l.pool.total_refunded ≤ l.pool.max_pool_lamports
  pub in_range : l.pool.max_pool_lamports < u64_mod
  pub raise_positive : 0 < l.pool.min_raise_lamports
  -- the pool is solvent in lamports until the buy
  pub solvent :
      (holds_lamports l.pool.status ≡ false) ⊎ (l.pool.total_contributed ≤ l.pool_lamports)
  pub never_closed : l.pool.status ≢ closed
  -- nothing is refunded before the pool is refundable
  pub kept : (l.pool.status ≡ refundable) ⊎ (l.pool.total_refunded ≡ 0)
  -- nothing is claimed before the pool is finalized
  pub unpaid : (l.pool.status ≡ finalized) ⊎ (l.pool.total_claimed ≡ 0)
  -- then what is owed is, with what has been paid, within what is distributable
  pub settled_total : (l.pool.status ≡ finalized) → 0 < l.pool.total_contributed
  pub settled_range : (l.pool.status ≡ finalized) → l.pool.distributable < u64_mod
  pub owed :
      (l.pool.status ≡ finalized)
      → l.pool.total_claimed
          + weight (owed_on l.pool.distributable l.pool.total_contributed) l.contributions
        ≤ l.pool.distributable
  pub entries : AllEntries (IsEntry l.pool_key l.pool.status) l.contributions

-- The vault backs the pool: it holds the tokens bought until the pool is finalized, and then what is
-- owed. `complete_buy` may be passed another token account, so this is no part of the invariant.
pub record Backed (l : Ledger) : Type 0 where
  pub stocked : (l.pool.status ≡ bought) → l.pool.tokens_bought ≤ l.vault_tokens
  pub covered :
      (l.pool.status ≡ finalized)
      → weight (owed_on l.pool.distributable l.pool.total_contributed) l.contributions
        ≤ l.vault_tokens
