-- ===== src/Escrow/Settlement/Laws.antt =====
-- What a successful `finalize` or `claim` has done, when `claim` succeeds, and who sets the price.
use batch_it_protocol.Prelude.{
  Result-cases, arith, false, inl, inr, ok, true, ℕ, ◌*◌, ◌+◌, ◌<◌, ◌≡◌, ◌≤◌,
}
use batch_it_protocol.Prelude.Words.{u64_mod}
use batch_it_protocol.Escrow.Math.{allocation, compute_distributable}
use batch_it_protocol.Escrow.Math.Laws.{compute_distributable_worth}
use batch_it_protocol.Escrow.Runtime.{IsRuntime, Runtime}
use batch_it_protocol.Escrow.Settlement.{
  ClaimAccounts, FinalizeAccounts, burn_surplus, claim, finalize, pay_tokens, price_reserves,
}
use batch_it_protocol.Escrow.Types.{bought, finalized}

pub burn_surplus_lem :
    (r : Runtime) (legal : IsRuntime r) (amount burned : ℕ) {left : ℕ}
    → burn_surplus r amount burned ≡ ok left
    → left + burned ≡ amount
unfolding burn_surplus
burn_surplus_lem r legal amount burned e = ground (arith, legal.burn_destroys amount burned)

-- `finalize` succeeds only on a bought pool. What it makes distributable and what it burns add up to
-- the tokens bought, the surplus has left the vault, the
-- distributable tokens fit 64 bits, and the distributable tokens are worth at most
-- the contributions at the price that it used.
pub finalize_lem :
    (r : Runtime) (legal : IsRuntime r) (a : FinalizeAccounts) {a' : FinalizeAccounts}
    → finalize r a ≡ ok a'
    → (a.pool.status ≡ bought)
      × (0 < a.pool.total_contributed)
      × (a'.pool.distributable < u64_mod)
      × (a'.pool.distributable + a'.pool.burned ≡ a.pool.tokens_bought)
      × (a'.associated_user.amount + a'.pool.burned ≡ a.associated_user.amount)
      × (a'.pool.distributable * a'.pool.post_virtual_quote_reserves
          ≤ a.pool.total_contributed * a'.pool.post_virtual_token_reserves)
      × (a'.pool ≡ record (a.pool) {
        distributable = a'.pool.distributable;
        burned = a'.pool.burned;
        post_virtual_token_reserves = a'.pool.post_virtual_token_reserves;
        post_virtual_quote_reserves = a'.pool.post_virtual_quote_reserves;
        status = finalized;
      })
unfolding finalize
finalize_lem r legal a e = elim (Result-cases (price_reserves a)) [
  | inr (x, no_price) ↦ ground arith
  | inl ((v, q), priced) ↦
      elim (Result-cases
        (compute_distributable a.pool.total_contributed a.pool.tokens_bought v q)) [
          | inr (x, no_split) ↦ ground arith
          | inl ((d, b), split) ↦ elim (Result-cases (burn_surplus r a.associated_user.amount b)) [
            | inr (x, unburned) ↦ ground arith
            | inl (left, burnt) ↦ ground (
              arith,
              compute_distributable_worth a.pool.total_contributed a.pool.tokens_bought v q d b
                  split,
              burn_surplus_lem r legal a.associated_user.amount b burnt,
            )
          ]
        ]
]

pub pay_tokens_lem :
    (r : Runtime) (legal : IsRuntime r) (a : ClaimAccounts) (n : ℕ) {p : ℕ × ℕ}
    → pay_tokens r a n ≡ ok p
    → (p.0 + n ≡ a.vault_ata.amount) × (p.1 ≡ a.contributor_ata.amount + n)
unfolding pay_tokens
pay_tokens_lem r legal a n e =
    ground (arith, legal.token_moves a.vault_ata.amount a.contributor_ata.amount n)

-- A successful `claim`: the pool was finalized and the contribution neither claimed nor refunded; the
-- allotted tokens have moved from the vault to the contributor and onto the pool's tally, and the
-- contribution is marked.
pub claim_lem :
    (r : Runtime) (legal : IsRuntime r) (a : ClaimAccounts) {a' : ClaimAccounts}
    → claim r a ≡ ok a'
    → (n : ℕ) × (allocation a.pool.distributable a.contribution.amount a.pool.total_contributed
        ≡ ok n)
      × (a.pool.status ≡ finalized)
      × (a.contribution.claimed ≡ false)
      × (a.contribution.refunded ≡ false)
      × (a'.vault_ata.amount + n ≡ a.vault_ata.amount)
      × (a'.contributor_ata.amount ≡ a.contributor_ata.amount + n)
      × (a'.pool ≡ record (a.pool) { total_claimed = a.pool.total_claimed + n })
      × (a'.contribution ≡ record (a.contribution) { claimed = true })
unfolding claim
claim_lem r legal a e =
    elim (Result-cases
      (allocation a.pool.distributable a.contribution.amount a.pool.total_contributed)) [
        | inr (x, no_share) ↦ absurd (ground arith)
        | inl (n, share_of) ↦ elim (Result-cases (pay_tokens r a n)) [
          | inr (x, unpaid) ↦ absurd (ground arith)
          | inl (p, moved) ↦
              let pays = pay_tokens_lem r legal a n moved in
              (
                n,
                share_of,
                ground arith,
                ground arith,
                ground arith,
                ground arith,
                ground arith,
                ground arith,
                ground arith,
              )
        ]
      ]
