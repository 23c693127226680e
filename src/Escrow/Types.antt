-- ===== src/Escrow/Types.antt =====
-- programs/batchit/src/state.rs, error.rs and the reserves of pump.rs. A `Pubkey` is the number that
-- its 32 bytes spell, so `Pubkey::default()` is 0; `u64`, `u32` and `u8` are plain numbers, kept in
-- range by the checked operations; `i64` timestamps are integers.
use batch_it_protocol.Prelude.{Bool, Option, Result, false, ok_or, require, ℕ, ◌==◌}
use batch_it_protocol.Prelude.Int.{ℤ}

abbrev pub Pubkey : Type 0
Pubkey = ℕ

abbrev pub default_pubkey : Pubkey
default_pubkey = 0

-- `opened` is `Open`, which is a reserved word.
pub data PoolStatus : Type 0 where
  opened launching bought finalized refundable closed : PoolStatus

-- The discriminants of `#[repr(u8)]`; `==` on statuses compares them.
abbrev pub discriminant : PoolStatus → ℕ
discriminant opened = 0
discriminant launching = 1
discriminant bought = 2
discriminant finalized = 3
discriminant refundable = 4
discriminant closed = 5

abbrev pub is_status : PoolStatus → PoolStatus → Bool
is_status s t = discriminant s == discriminant t

pub record Pool : Type 0 where
  pub bump : ℕ
  pub buyer_bump : ℕ
  pub status : PoolStatus
  pub creator : Pubkey
  pub seed : ℕ
  pub mint : Pubkey
  pub launch_at : ℤ
  pub grace_ends_at : ℤ
  pub min_raise_lamports : ℕ
  pub max_pool_lamports : ℕ
  pub min_contribution_lamports : ℕ
  pub total_contributed : ℕ
  pub contributor_count : ℕ
  pub tokens_bought : ℕ
  pub distributable : ℕ
  pub burned : ℕ
  pub post_virtual_token_reserves : ℕ
  pub post_virtual_quote_reserves : ℕ
  pub total_claimed : ℕ
  pub total_refunded : ℕ

pub record Contribution : Type 0 where
  pub bump : ℕ
  pub pool : Pubkey
  pub contributor : Pubkey
  pub amount : ℕ
  pub claimed : Bool
  pub refunded : Bool

-- A `Contribution` account as `init_if_needed` makes it: all zero bytes.
abbrev pub blank_contribution : Contribution
blank_contribution = record {
  bump = 0;
  pool = default_pubkey;
  contributor = default_pubkey;
  amount = 0;
  claimed = false;
  refunded = false;
}

pub record BondingCurveReserves : Type 0 where
  pub virtual_token_reserves : ℕ
  pub virtual_quote_reserves : ℕ
  pub real_token_reserves : ℕ
  pub real_quote_reserves : ℕ

pub data BatchitError : Type 0 where
  bad_status contribution_too_small max_pool_exceeded contribution_closed : BatchitError
  launch_too_early launch_grace_expired min_raise_not_met mint_already_set : BatchitError
  mint_not_set mint_mismatch create_not_landed buy_failed math_overflow : BatchitError
  nothing_to_claim nothing_to_refund refund_not_allowed claim_not_allowed : BatchitError
  not_contributor bad_fee_recipient bad_pump_remaining unauthorized : BatchitError
  pool_not_empty invalid_params zero_amount zero_tokens_bought : BatchitError
  distributable_too_large : BatchitError

-- An instruction fails by an error of the program, because a program that it calls fails, because an
-- account that it needs does not exist, or because a `has_one` constraint does not hold.
pub data Failure : Type 0 where
  program : BatchitError → Failure
  call_failed : Failure
  account_missing : Failure
  has_one_violated : Failure

-- `require!(test, BatchitError::e)`
abbrev pub ensure : Bool → BatchitError → Result Failure (Unit {0})
ensure test e = require test (program e)

-- `checked.ok_or(BatchitError::MathOverflow)?`
abbrev pub no_overflow : Option ℕ → Result Failure ℕ
no_overflow o = ok_or o (program math_overflow)

-- What the token program keeps in a token account.
pub record TokenAccount : Type 0 where
  pub owner : Pubkey
  pub mint : Pubkey
  pub amount : ℕ
