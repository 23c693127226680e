-- ===== src/Escrow/Ledger/Steps.antt =====
-- Everything that can happen to a pool, in any order and at any time, up to `close_pool`.
use batch_it_protocol.Escrow.Funding
use batch_it_protocol.Prelude.{List, true, false, ok, ℕ, ◌+◌, ◌<◌, ◌≡◌}
use batch_it_protocol.Prelude.Int.{ℤ}
use batch_it_protocol.Prelude.Maps.{AllEntries, IsDistinct}
use batch_it_protocol.Prelude.Words.{u64_mod}
use batch_it_protocol.Escrow.Funding.{create_pool}
use batch_it_protocol.Escrow.Ledger.{
  Ledger, Source, begin_launch, claim, complete_buy, contribute, finalize, mark_refundable, refund,
}
use batch_it_protocol.Escrow.Runtime.{Runtime}
use batch_it_protocol.Escrow.Types.{TokenAccount, Contribution, Pubkey}

-- A contribution record that is left from a pool which was closed at the same address: `close_pool`
-- leaves the contribution accounts as they are.
pub record IsLeftover (key : Pubkey) (who : Pubkey) (c : Contribution) : Type 0 where
  pub own : c.contributor ≡ who
  pub in_pool : c.pool ≡ key
  pub unclaimed : c.claimed ≡ false
  pub refunded : c.refunded ≡ true
  pub emptied : c.amount ≡ 0

-- A pool just created, at a new address or one where a pool was closed. The arguments of `create_pool`
-- are 64-bit integers; lamports and tokens may have been sent to the accounts before.
pub data Opened : Ledger → Type 0 where
  created :
      {l : Ledger} (now : ℤ) (creator bump buyer_bump seed : ℕ) (launch_at grace_secs : ℤ)
      (min_raise max_pool min_contribution : ℕ)
      → max_pool < u64_mod
      → Funding.create_pool now creator bump buyer_bump seed launch_at grace_secs min_raise max_pool
          min_contribution
        ≡ ok l.pool
      → AllEntries (IsLeftover l.pool_key) l.contributions
      → IsDistinct l.contributions
      → Opened l

-- An instruction of anybody's that succeeds, or a payment into one of the accounts from outside.
pub data Step (r : Runtime) (pump : Pubkey) : Ledger → Ledger → Type 0 where
  contributed :
      {l l' : Ledger} (now : ℤ) (who bump wallet amount : ℕ) {wallet' : ℕ}
      → contribute r now who bump wallet amount l ≡ ok (l', wallet')
      → Step r pump l l'
  launched :
      {l l' : Ledger} (now : ℤ) (mint : Pubkey) → begin_launch now mint l ≡ ok l' → Step r pump l l'
  bought_in :
      {l l' : Ledger} (now : ℤ) (mint curve_owner : Pubkey) (curve_data : List ℕ) (source : Source)
      (min_tokens_out : ℕ) {account : TokenAccount}
      → complete_buy r pump now mint curve_owner curve_data source min_tokens_out l
        ≡ ok (l', account)
      → Step r pump l l'
  settled :
      {l l' : Ledger} (curve_data : List ℕ) (source : Source) {account : TokenAccount}
      → finalize r curve_data source l ≡ ok (l', account)
      → Step r pump l l'
  paid_out :
      {l l' : Ledger} (who : Pubkey) (source : Source) (wallet : TokenAccount)
      {source' wallet' : TokenAccount}
      → claim r who source wallet l ≡ ok (l', source', wallet')
      → Step r pump l l'
  marked : {l l' : Ledger} (now : ℤ) → mark_refundable now l ≡ ok l' → Step r pump l l'
  paid_back :
      {l l' : Ledger} (now : ℤ) (who : Pubkey) (wallet : ℕ) {wallet' : ℕ}
      → refund now who wallet l ≡ ok (l', wallet')
      → Step r pump l l'
  received :
      {l l' : Ledger} (lamports tokens buyer_lamports : ℕ)
      → l' ≡ record l {
        pool_lamports = l.pool_lamports + lamports;
        vault_tokens = l.vault_tokens + tokens;
        buyer_lamports = buyer_lamports;
      }
      → Step r pump l l'

pub data Reachable (r : Runtime) (pump : Pubkey) : Ledger → Type 0 where
  start : {l : Ledger} → Opened l → Reachable r pump l
  next : {l l' : Ledger} → Reachable r pump l → Step r pump l l' → Reachable r pump l'

-- Any number of steps.
pub data Leads (r : Runtime) (pump : Pubkey) (l : Ledger) : Ledger → Type 0 where
  here : Leads r pump l l
  then_ : {l' l'' : Ledger} → Leads r pump l l' → Step r pump l' l'' → Leads r pump l l''
