-- ===== src/Escrow/Ledger.antt =====
-- One pool on the chain, and the instructions of programs/batchit/src/lib.rs that act on it. Each loads
-- the accounts that its `#[derive(Accounts)]` structure names (a contribution is found by its
-- contributor, whose key its address is derived from), runs the handler and stores the accounts; a
-- failed handler leaves everything as it was. The vault is the buyer's associated token account for the
-- mint; the other accounts that a caller passes are arguments as they are before the instruction, and
-- those it pays into or out of are returned as they are after it.
pub mod Steps
pub mod Invariant
pub mod Kept
pub mod View
pub mod Refinement
pub mod Claiming
pub mod Guarantees
pub mod Lifecycle
pub mod Finality
pub mod Records
pub mod Drain
pub mod PayAll
pub mod Backing
pub mod Reopening
pub mod WindUp
use batch_it_protocol.Escrow.Funding
use batch_it_protocol.Escrow.Launch
use batch_it_protocol.Escrow.Settlement
use batch_it_protocol.Escrow.Exit
use batch_it_protocol.Prelude.{List, Result, none, ok, ok_or, some, ℕ, ◌>>=◌, ◌>>◌}
use batch_it_protocol.Prelude.Int.{ℤ}
use batch_it_protocol.Prelude.Maps.{insert, lookup}
use batch_it_protocol.Escrow.Exit.{RefundAccounts}
use batch_it_protocol.Escrow.Funding.{ContributeAccounts}
use batch_it_protocol.Escrow.Launch.{BuyAccounts}
use batch_it_protocol.Escrow.Runtime.{Runtime}
use batch_it_protocol.Escrow.Settlement.{FinalizeAccounts, ClaimAccounts}
use batch_it_protocol.Escrow.Types.{
  TokenAccount, Contribution, Failure, Pool, Pubkey, account_missing, blank_contribution,
}

pub record Ledger : Type 0 where
  pub pool_key : Pubkey
  pub pool : Pool
  pub pool_lamports : ℕ
  pub buyer_lamports : ℕ
  pub vault_tokens : ℕ
  pub contributions : List (Pubkey × Contribution)

-- The token account passed as `associated_user` or `vault_ata`: the vault, or another one.
pub data Source : Type 0 where
  the_vault : Source
  another : TokenAccount → Source

-- The buyer's associated token account for the mint.
abbrev pub vault : Runtime → Ledger → TokenAccount
vault r l = record { owner = r.buyer_pda l.pool_key; mint = l.pool.mint; amount = l.vault_tokens }

abbrev pub passed : Runtime → Source → Ledger → TokenAccount
passed r the_vault l = vault r l
passed r (another account) l = account

-- The tokens in the vault, when the account passed has become the one given.
abbrev pub vault_after : Source → TokenAccount → Ledger → ℕ
vault_after the_vault account l = account.amount
vault_after (another _) account l = l.vault_tokens

-- `init_if_needed`: a contribution that is not there yet is made blank.
abbrev pub contribution_of : Pubkey → Ledger → Contribution
contribution_of who l = elim (lookup who l.contributions) [ none ↦ blank_contribution | some c ↦ c ]

-- The accounts of a `contribute` by `who`, who has `wallet` lamports.
abbrev pub contribute_accounts : Pubkey → ℕ → ℕ → Ledger → ContributeAccounts
contribute_accounts who bump wallet l = record {
  contributor = who;
  contributor_lamports = wallet;
  pool_key = l.pool_key;
  pool = l.pool;
  pool_lamports = l.pool_lamports;
  contribution = contribution_of who l;
  contribution_bump = bump;
}

-- `contribute`, signed by `who`, who has `wallet` lamports; with it, the lamports that `who` has
-- afterwards.
unfoldable pub contribute : Runtime → ℤ → Pubkey → ℕ → ℕ → ℕ → Ledger → Result Failure (Ledger × ℕ)
contribute r now who bump wallet amount l = do
  a ← Funding.contribute r now (contribute_accounts who bump wallet l) amount
  ok (
    record l {
      pool = a.pool;
      pool_lamports = a.pool_lamports;
      contributions = insert who a.contribution l.contributions;
    },
    a.contributor_lamports,
  )

unfoldable pub begin_launch : ℤ → Pubkey → Ledger → Result Failure Ledger
begin_launch now mint l = do p ← Launch.begin_launch now l.pool mint; ok (record l { pool = p })

-- The accounts of a `complete_buy` with a mint account, a curve account (owner and data) and a token
-- account: nothing says whose that is.
abbrev pub buy_accounts : Runtime → Pubkey → Pubkey → List ℕ → Source → Ledger → BuyAccounts
buy_accounts r mint curve_owner curve_data source l = record {
  pool = l.pool;
  pool_lamports = l.pool_lamports;
  mint = mint;
  curve_owner = curve_owner;
  market = record {
    buyer_lamports = l.buyer_lamports;
    associated_user = passed r source l;
    curve_data = curve_data;
  };
}

-- `complete_buy` with the mint account, the curve account (owner and data) and the token account that
-- the caller passes; with it, that token account afterwards.
unfoldable pub complete_buy :
    Runtime
    → Pubkey
    → ℤ
    → Pubkey
    → Pubkey
    → List ℕ
    → Source
    → ℕ
    → Ledger
    → Result Failure (Ledger × TokenAccount)
complete_buy r pump now mint curve_owner curve_data source min_tokens_out l = do
  a ←
      Launch.complete_buy r pump now (buy_accounts r mint curve_owner curve_data source l)
        min_tokens_out
  ok (
    record l {
      pool = a.pool;
      pool_lamports = a.pool_lamports;
      buyer_lamports = a.market.buyer_lamports;
      vault_tokens = vault_after source a.market.associated_user l;
    },
    a.market.associated_user,
  )

abbrev pub finalize_accounts : Runtime → List ℕ → Source → Ledger → FinalizeAccounts
finalize_accounts r curve_data source l = record {
  pool_key = l.pool_key;
  pool = l.pool;
  associated_user = passed r source l;
  curve_data = curve_data;
}

-- `finalize` with the curve account and the token account that the caller passes; with it, that token
-- account afterwards.
unfoldable pub finalize :
    Runtime → List ℕ → Source → Ledger → Result Failure (Ledger × TokenAccount)
finalize r curve_data source l = do
  a ← Settlement.finalize r (finalize_accounts r curve_data source l)
  ok (
    record l { pool = a.pool; vault_tokens = vault_after source a.associated_user l },
    a.associated_user,
  )

-- The accounts of a `claim` by `who` out of the account passed into the token account `wallet`.
abbrev pub claim_accounts :
    Runtime → Pubkey → Source → TokenAccount → Contribution → Ledger → ClaimAccounts
claim_accounts r who source wallet c l = record {
  contributor = who;
  pool_key = l.pool_key;
  pool = l.pool;
  contribution = c;
  vault_ata = passed r source l;
  contributor_ata = wallet;
}

-- `claim` by `who`; with it, the account paid from and the account paid into, afterwards.
unfoldable pub claim :
    Runtime
    → Pubkey
    → Source
    → TokenAccount
    → Ledger
    → Result Failure (Ledger × TokenAccount × TokenAccount)
claim r who source wallet l = do
  c ← ok_or (lookup who l.contributions) account_missing
  a ← Settlement.claim r (claim_accounts r who source wallet c l)
  ok (
    record l {
      pool = a.pool;
      vault_tokens = vault_after source a.vault_ata l;
      contributions = insert who a.contribution l.contributions;
    },
    a.vault_ata,
    a.contributor_ata,
  )

unfoldable pub mark_refundable : ℤ → Ledger → Result Failure Ledger
mark_refundable now l = do p ← Exit.mark_refundable now l.pool; ok (record l { pool = p })

-- The accounts of a `refund` to `who`, who has `wallet` lamports.
abbrev pub refund_accounts : Pubkey → ℕ → Contribution → Ledger → RefundAccounts
refund_accounts who wallet c l = record {
  contributor = who;
  contributor_lamports = wallet;
  pool_key = l.pool_key;
  pool = l.pool;
  pool_lamports = l.pool_lamports;
  contribution = c;
}

-- `refund` to `who`, who has `wallet` lamports; with it, the lamports that `who` has afterwards.
unfoldable pub refund : ℤ → Pubkey → ℕ → Ledger → Result Failure (Ledger × ℕ)
refund now who wallet l = do
  c ← ok_or (lookup who l.contributions) account_missing
  a ← Exit.refund now (refund_accounts who wallet c l)
  ok (
    record l {
      pool = a.pool;
      pool_lamports = a.pool_lamports;
      contributions = insert who a.contribution l.contributions;
    },
    a.contributor_lamports,
  )
