-- ===== src/Escrow/Math/Laws.antt =====
-- What the program's arithmetic returns on 64-bit inputs.
use batch_it_protocol.Prelude.{
  arith, if◌then◌else◌, is_ok, ltb, ok, true, ℕ, ◌%◌, ◌*◌, ◌+◌, ◌-◌, ◌/◌, ◌<◌, ◌↔◌, ◌≡◌, ◌≤◌,
}
use batch_it_protocol.Prelude.Division.{
  div_mul_le, mul_mono, share, share-whole, share-zero, share_mono,
}
use batch_it_protocol.Prelude.Words.{u128_mod, u64_mod}
use batch_it_protocol.Escrow.Math.{allocation, compute_distributable}

pub mul_lt_u128 : (a b : ℕ) → a < u64_mod → b < u64_mod → a * b < u128_mod
mul_lt_u128 a b ha hb = omega (arith, mul_mono a (u64_mod - 1) b (omega arith))

-- The worth of `total` lamports in tokens, cut to 64 bits, and at most the tokens bought.
abbrev pub truncated_worth : ℕ → ℕ → ℕ → ℕ → ℕ
truncated_worth total tokens vtok vquote =
    let worth = total * vtok / vquote % u64_mod in if ltb tokens worth then tokens else worth

pub compute_distributable_lem :
    (total tokens vtok vquote : ℕ)
    → 0 < total
    → 0 < tokens
    → 0 < vquote
    → total < u64_mod
    → vtok < u64_mod
    → compute_distributable total tokens vtok vquote
      ≡ ok (
        truncated_worth total tokens vtok vquote,
        tokens - truncated_worth total tokens vtok vquote,
      )
unfolding compute_distributable
compute_distributable_lem total tokens vtok vquote ht hb hq lt lv =
    ground (arith, mul_lt_u128 total vtok lt lv)

-- On 64-bit contributions and token reserves `compute_distributable` succeeds exactly when the tokens,
-- the quote reserves and the contributions are positive.
pub compute_distributable_sound :
    (total tokens vtok vquote : ℕ)
    → total < u64_mod
    → vtok < u64_mod
    → ((is_ok (compute_distributable total tokens vtok vquote) ≡ true)
        ↔ ((0 < tokens) × (0 < vquote) × (0 < total)))
unfolding compute_distributable
compute_distributable_sound total tokens vtok vquote lt lv =
    (λ h. ground arith, λ h. ground (arith, mul_lt_u128 total vtok lt lv))

-- What it keeps and what it burns add up to the tokens bought; what it keeps fits 64 bits and is worth
-- at most the contributions, which are positive, at the final price.
pub compute_distributable_worth :
    (total tokens vtok vquote d b : ℕ)
    → compute_distributable total tokens vtok vquote ≡ ok (d, b)
    → (d + b ≡ tokens) × (d * vquote ≤ total * vtok) × (0 < total) × (d < u64_mod)
unfolding compute_distributable
compute_distributable_worth total tokens vtok vquote d b e =
    ground (arith, div_mul_le (total * vtok) vquote, mul_mono d (total * vtok / vquote) vquote)

-- A contribution that is part of the total is allotted its floor share: 128 bits hold the product,
-- and the result is not truncated.
pub allocation_lem :
    (d c t : ℕ) → 0 < t → c ≤ t → d < u64_mod → t < u64_mod → allocation d c t ≡ ok (share d t c)
unfolding allocation
allocation_lem d c t h hc hd ht = ground (
  arith,
  mul_lt_u128 d c hd (omega arith),
  share_mono d t c t hc,
  share-whole d t h,
  share-zero d t h,
  share-zero c t h,
)
