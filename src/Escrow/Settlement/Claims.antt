-- ===== src/Escrow/Settlement/Claims.antt =====
-- When `claim` succeeds.
use batch_it_protocol.Prelude.{arith, false, ok, true, ℕ, ◌+◌, ◌-◌, ◌<◌, ◌≡◌, ◌≤◌, ◌⊎◌}
use batch_it_protocol.Prelude.Words.{u64_mod}
use batch_it_protocol.Escrow.Math.{allocation}
use batch_it_protocol.Escrow.Runtime.{IsRuntime, Runtime}
use batch_it_protocol.Escrow.Settlement.{ClaimAccounts, claim, pay_tokens}
use batch_it_protocol.Escrow.Types.{finalized}

-- The accounts that Anchor lets through: the contribution belongs to the pool, and both token accounts
-- are of the pool's mint, the vault owned by the buyer PDA and the other by the contributor.
pub record IsClaimable (r : Runtime) (a : ClaimAccounts) : Type 0 where
  pub of_pool : a.contribution.pool ≡ a.pool_key
  pub vault_owner : a.vault_ata.owner ≡ r.buyer_pda a.pool_key
  pub vault_mint : a.vault_ata.mint ≡ a.pool.mint
  pub wallet_owner : a.contributor_ata.owner ≡ a.contributor
  pub wallet_mint : a.contributor_ata.mint ≡ a.pool.mint

pub pay_tokens_covered :
    (r : Runtime) (legal : IsRuntime r) (a : ClaimAccounts) (n : ℕ)
    → n ≤ a.vault_ata.amount
    → a.contributor_ata.amount + n < u64_mod
    → pay_tokens r a n ≡ ok (a.vault_ata.amount - n, a.contributor_ata.amount + n)
unfolding pay_tokens
pay_tokens_covered r legal a n hv hw =
    ground (arith, legal.token_covered a.vault_ata.amount a.contributor_ata.amount n hv hw)

-- On a finalized pool a contribution that is neither claimed nor refunded is paid its allotted tokens,
-- if that is at least one token (or nothing is distributable at all), the vault covers them, and the
-- contributor's account and the pool's tally have room.
pub claim_pays :
    (r : Runtime) (legal : IsRuntime r) (a : ClaimAccounts) (n : ℕ)
    → IsClaimable r a
    → a.pool.status ≡ finalized
    → a.contribution.contributor ≡ a.contributor
    → a.contribution.claimed ≡ false
    → a.contribution.refunded ≡ false
    → 0 < a.contribution.amount
    → allocation a.pool.distributable a.contribution.amount a.pool.total_contributed ≡ ok n
    → (0 < n) ⊎ (a.pool.distributable ≡ 0)
    → n ≤ a.vault_ata.amount
    → a.contributor_ata.amount + n < u64_mod
    → a.pool.total_claimed + n < u64_mod
    → claim r a
      ≡ ok (record a {
        vault_ata = record (a.vault_ata) { amount = a.vault_ata.amount - n };
        contributor_ata = record (a.contributor_ata) { amount = a.contributor_ata.amount + n };
        contribution = record (a.contribution) { claimed = true };
        pool = record (a.pool) { total_claimed = a.pool.total_claimed + n };
      })
unfolding claim
claim_pays r legal a n c hs hw hc hr ha hn hp hv hb ht =
    rw (hn, pay_tokens_covered r legal a n hv hb) (ground arith)
