-- ===== src/Escrow/Math/Agreement.antt =====
-- math.rs against packages/core/src/burn.ts, which says that it mirrors it.
use batch_it_protocol.Burn
use batch_it_protocol.Prelude.{arith, ok, ℕ, ◌%◌, ◌*◌, ◌-◌, ◌/◌, ◌<◌, ◌≡◌, ◌≤◌}
use batch_it_protocol.Prelude.Division.{share}
use batch_it_protocol.Prelude.Int.{pos, pos_part}
use batch_it_protocol.Prelude.Words.{u64_mod}
use batch_it_protocol.Burn.{BurnBreakdown}
use batch_it_protocol.Burn.Split.{breakdown}
use batch_it_protocol.Escrow.Math.{allocation, compute_distributable}
use batch_it_protocol.Escrow.Math.Laws.{allocation_lem, compute_distributable_lem}

-- On positive contributions, tokens and quote reserves, with contributions and token reserves of 64 bits
-- and while the worth of the contributions fits 64 bits, both functions succeed, and the program and
-- the TypeScript library keep and burn the same tokens.
pub compute_distributable_agrees :
    (total tokens vtok vquote : ℕ)
    → 0 < total
    → 0 < tokens
    → 0 < vquote
    → total < u64_mod
    → vtok < u64_mod
    → total * vtok / vquote < u64_mod
    → (r : BurnBreakdown) × (Burn.compute_distributable
          (pos total)
          (pos tokens)
          (pos vtok)
          (pos vquote)
        ≡ ok r)
      × (compute_distributable total tokens vtok vquote
          ≡ ok (pos_part r.distributable, pos_part r.burned))
compute_distributable_agrees total tokens vtok vquote ht hk hq lt lv fits = (
  breakdown total tokens vtok vquote,
  Burn.Split.compute_distributable_lem total tokens vtok vquote ht hk hq,
  rw (compute_distributable_lem total tokens vtok vquote ht hk hq lt lv) (ground arith),
)

-- On positive 64-bit contributions, tokens and reserves whose worth passes 64 bits, the cast to `u64`,
-- which stands before the cap, truncates it: if what is left of it is below the tokens bought, the
-- library burns nothing and the program burns some of the tokens.
pub compute_distributable_truncates :
    (total tokens vtok vquote : ℕ)
    → 0 < total
    → 0 < tokens
    → 0 < vquote
    → total < u64_mod
    → vtok < u64_mod
    → tokens < u64_mod
    → u64_mod ≤ total * vtok / vquote
    → total * vtok / vquote % u64_mod < tokens
    → (r : BurnBreakdown) × (Burn.compute_distributable
          (pos total)
          (pos tokens)
          (pos vtok)
          (pos vquote)
        ≡ ok r)
      × (r.burned ≡ pos 0)
      × (b : ℕ) × (compute_distributable total tokens vtok vquote ≡ ok (tokens - b, b))
      × (0 < b)
compute_distributable_truncates total tokens vtok vquote ht hk hq lt lv lk wide low = (
  breakdown total tokens vtok vquote,
  Burn.Split.compute_distributable_lem total tokens vtok vquote ht hk hq,
  ground arith,
  tokens - total * vtok / vquote % u64_mod,
  rw (compute_distributable_lem total tokens vtok vquote ht hk hq lt lv) (ground arith),
  omega arith,
)

-- On a contribution of at most a positive total, with 64-bit amounts, the program and the library both
-- succeed and allot the same tokens.
pub allocation_agrees :
    (d c t : ℕ)
    → 0 < t
    → c ≤ t
    → d < u64_mod
    → t < u64_mod
    → (a : ℕ) × (allocation d c t ≡ ok a) × (Burn.allocation (pos d) (pos c) (pos t) ≡ ok (pos a))
allocation_agrees d c t h hc hd ht =
    (share d t c, allocation_lem d c t h hc hd ht, Burn.Allocations.allocation_lem d c t h)
