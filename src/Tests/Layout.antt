-- ===== src/Tests/Layout.antt =====
-- Instances of the theorems about the layout of the escrow's accounts.
use batch_it_protocol.Prelude.{length, refl, replicate, ◌≡◌}
use batch_it_protocol.Escrow.Layout.{
  accounts_fit, contribution_bytes, contribution_len, pool_bytes, pool_len,
}
use batch_it_protocol.Tests.Scenario.{contribution, final_pool}

accounts_fit_example :
    (length (pool_bytes (replicate 8 0) final_pool) ≡ pool_len)
    × (length (contribution_bytes (replicate 8 0) (contribution 2 6)) ≡ contribution_len)
accounts_fit_example = accounts_fit (replicate 8 0) final_pool (contribution 2 6) refl
