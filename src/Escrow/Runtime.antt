-- ===== src/Escrow/Runtime.antt =====
-- What the escrow program calls and does not implement: the system program, the token program, pump,
-- and the derivation of program addresses. `none` is a failed call.
use batch_it_protocol.Prelude.{List, Option, none, some, ℕ, ◌+◌, ◌-◌, ◌<◌, ◌≡◌, ◌≤◌}
use batch_it_protocol.Prelude.Words.{u64_mod}
use batch_it_protocol.Escrow.Types.{Pubkey, TokenAccount}

-- What pump's `buy_exact_sol_in` can change: the buyer's lamports, the token account passed as
-- `associated_user`, whosever it is, and the data of the bonding curve.
pub record Market : Type 0 where
  pub buyer_lamports : ℕ
  pub associated_user : TokenAccount
  pub curve_data : List ℕ

pub record Runtime : Type 0 where
  -- lamports of the source and of the destination, amount
  pub system_transfer : ℕ → ℕ → ℕ → Option (ℕ × ℕ)
  -- tokens of the source and of the destination, amount
  pub token_transfer : ℕ → ℕ → ℕ → Option (ℕ × ℕ)
  -- tokens of the account, amount
  pub token_burn : ℕ → ℕ → Option ℕ
  -- the accounts, `spendable_sol_in`, `min_tokens_out`
  pub pump_buy : Market → ℕ → ℕ → Option Market
  pub buyer_pda : Pubkey → Pubkey

-- A transfer that succeeds moves exactly the amount.
abbrev pub Moved : ℕ → ℕ → ℕ → Option (ℕ × ℕ) → Type 0
Moved a b n none = Unit
Moved a b n (some (a', b')) = (a' + n ≡ a) × (b' ≡ b + n)

-- A burn that succeeds destroys exactly the amount.
abbrev pub Burned : ℕ → ℕ → Option ℕ → Type 0
Burned a n none = Unit
Burned a n (some a') = a' + n ≡ a

-- The documented behaviour of the system and token programs: a call that succeeds moves or destroys
-- exactly the amount; a burn that is covered succeeds, and so does a transfer of tokens that is
-- covered, where the destination has room in its 64 bits.
pub record IsRuntime (r : Runtime) : Type 0 where
  pub system_moves : (a b n : ℕ) → Moved a b n (r.system_transfer a b n)
  pub token_moves : (a b n : ℕ) → Moved a b n (r.token_transfer a b n)
  pub token_covered :
      (a b n : ℕ) → n ≤ a → b + n < u64_mod → r.token_transfer a b n ≡ some (a - n, b + n)
  pub burn_destroys : (a n : ℕ) → Burned a n (r.token_burn a n)
  pub burn_covered : (a n : ℕ) → n ≤ a → r.token_burn a n ≡ some (a - n)
