-- ===== src/Escrow/Launch/Laws.antt =====
-- What a successful `begin_launch` or `complete_buy` has done, and how `complete_buy` answers when
-- the create has not landed.
use batch_it_protocol.Prelude.{[], arith, err, ok, true, ℕ, ◌+◌, ◌<◌, ◌≡◌, ◌≢◌, ◌≤◌, ◌⊎◌}
use batch_it_protocol.Prelude.Int.{leb_ℤ, ltb_ℤ, ℤ}
use batch_it_protocol.Escrow.Launch.{BuyAccounts, begin_launch, complete_buy, execute_buy}
use batch_it_protocol.Escrow.Runtime.{Runtime}
use batch_it_protocol.Escrow.Types.{
  Pool, Pubkey, bought, create_not_landed, default_pubkey, launching, opened, program,
}

-- `begin_launch` succeeds only on an open pool, inside the window, with the raise met; it sets the
-- mint and the status and nothing else.
pub begin_launch_lem :
    (now : ℤ) (p : Pool) (mint : Pubkey) {p' : Pool}
    → begin_launch now p mint ≡ ok p'
    → (p.status ≡ opened)
      × (leb_ℤ p.launch_at now ≡ true)
      × (ltb_ℤ now p.grace_ends_at ≡ true)
      × (p.min_raise_lamports ≤ p.total_contributed)
      × (p.mint ≡ default_pubkey)
      × (mint ≢ default_pubkey)
      × (p' ≡ record p { mint = mint; status = launching })
unfolding begin_launch
begin_launch_lem now p mint e = ground arith

pub execute_buy_lem :
    (r : Runtime) (a : BuyAccounts) (n : ℕ) {a' : BuyAccounts}
    → execute_buy r a n ≡ ok a'
    → (0 < a.pool.total_contributed)
      × (0 < a'.pool.tokens_bought)
      × (a'.market.associated_user.amount ≡ a.market.associated_user.amount + a'.pool.tokens_bought)
      × (a'.pool_lamports + a.pool.total_contributed ≡ a.pool_lamports)
      × (a'.pool ≡ record (a.pool) {
        tokens_bought = a'.pool.tokens_bought;
        post_virtual_token_reserves = a'.pool.post_virtual_token_reserves;
        post_virtual_quote_reserves = a'.pool.post_virtual_quote_reserves;
        status = bought;
      })
unfolding execute_buy
execute_buy_lem r a n e = ground arith

-- A `complete_buy` that succeeds on a pool that is not `Bought` yet: the pool was launching, the grace
-- period was running and pump's curve for the mint was there; the whole raise has left the pool, and
-- the tokens bought, at least one, are in the vault.
pub complete_buy_lem :
    (r : Runtime) (pump : Pubkey) (now : ℤ) (a : BuyAccounts) (n : ℕ) {a' : BuyAccounts}
    → complete_buy r pump now a n ≡ ok a'
    → a.pool.status ≢ bought
    → (a.pool.status ≡ launching)
      × (ltb_ℤ now a.pool.grace_ends_at ≡ true)
      × (a.mint ≡ a.pool.mint)
      × (a.market.curve_data ≢ [])
      × (a.curve_owner ≡ pump)
      × (execute_buy r a n ≡ ok a')
unfolding complete_buy
complete_buy_lem r pump now a n e h = ground arith

-- Calling `complete_buy` again on a `Bought` pool succeeds and changes nothing.
pub complete_buy_idempotent :
    (r : Runtime) (pump : Pubkey) (now : ℤ) (a : BuyAccounts) (n : ℕ)
    → a.pool.status ≡ bought
    → complete_buy r pump now a n ≡ ok a
unfolding complete_buy
complete_buy_idempotent r pump now a n h = ground arith

-- While a launch is under way for the committed mint, `complete_buy` without pump's bonding curve, or
-- with an account that pump does not own, fails with `CreateNotLanded`.
pub complete_buy_create_missing :
    (r : Runtime) (pump : Pubkey) (now : ℤ) (a : BuyAccounts) (n : ℕ)
    → a.pool.status ≡ launching
    → ltb_ℤ now a.pool.grace_ends_at ≡ true
    → a.pool.mint ≢ default_pubkey
    → a.mint ≡ a.pool.mint
    → (a.market.curve_data ≡ []) ⊎ (a.curve_owner ≢ pump)
    → complete_buy r pump now a n ≡ err (program create_not_landed)
unfolding complete_buy
complete_buy_create_missing r pump now a n hs hg hm he hc = ground arith
