-- ===== src/Localnet/PoolDecode/Layout.antt =====
-- What the client makes of the bytes of a Pool account.
use batch_it_protocol.Prelude.{List, ◌<◌, ◌^◌}
use batch_it_protocol.Prelude.Words.{u32_mod, u64_mod}
use batch_it_protocol.Escrow.Layout.{IsI64}
use batch_it_protocol.Escrow.Types.{Pool, discriminant}
use batch_it_protocol.Web3.{Web3}
use batch_it_protocol.Localnet.PoolDecode.{DecodedPool, name_of}

-- The types of the fields that the client reads.
pub record IsPool (p : Pool) : Type 0 where
  pub creator : p.creator < 256 ^ 32
  pub seed : p.seed < u64_mod
  pub mint : p.mint < 256 ^ 32
  pub launch_at : IsI64 p.launch_at
  pub grace_ends_at : IsI64 p.grace_ends_at
  pub min_raise : p.min_raise_lamports < u64_mod
  pub max_pool : p.max_pool_lamports < u64_mod
  pub min_contribution : p.min_contribution_lamports < u64_mod
  pub total_contributed : p.total_contributed < u64_mod
  pub contributor_count : p.contributor_count < u32_mod
  pub tokens_bought : p.tokens_bought < u64_mod
  pub distributable : p.distributable < u64_mod
  pub burned : p.burned < u64_mod

abbrev pub decoded_of : Pool → DecodedPool
decoded_of p = record {
  status = discriminant p.status;
  status_name = name_of (discriminant p.status);
  creator = p.creator;
  seed = p.seed;
  mint = p.mint;
  launch_at = p.launch_at;
  grace_ends_at = p.grace_ends_at;
  min_raise = p.min_raise_lamports;
  max_pool = p.max_pool_lamports;
  min_contribution = p.min_contribution_lamports;
  total_contributed = p.total_contributed;
  contributor_count = p.contributor_count;
  tokens_bought = p.tokens_bought;
  distributable = p.distributable;
  burned = p.burned;
}
