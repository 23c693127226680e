-- ===== src/Burn/Split.antt =====
-- What `compute_distributable` guarantees.
use batch_it_protocol.Prelude.{
  arith, if◌then◌else◌, is_ok, ltb, ok, true, ℕ, ◌*◌, ◌+◌, ◌-◌, ◌/◌, ◌<◌, ◌↔◌, ◌≡◌, ◌≤◌, ◌⊎◌,
}
use batch_it_protocol.Prelude.Division.{div_mul_le, lt_mul_div}
use batch_it_protocol.Prelude.Int.{pos, ℤ, ◌≤ℤ◌}
use batch_it_protocol.Burn.{BurnBreakdown, compute_distributable}

-- The tokens that `total` lamports are worth at the price `vquote / vtok`, at most `bought`.
abbrev pub capped_worth : ℕ → ℕ → ℕ → ℕ → ℕ
capped_worth total bought vtok vquote =
    let worth = total * vtok / vquote in if ltb bought worth then bought else worth

abbrev pub breakdown : ℕ → ℕ → ℕ → ℕ → BurnBreakdown
breakdown total bought vtok vquote = record {
  distributable = pos (capped_worth total bought vtok vquote);
  burned = pos (bought - capped_worth total bought vtok vquote);
  total_contributed = pos total;
  tokens_bought = pos bought;
  post_virtual_token_reserves = pos vtok;
  post_virtual_quote_reserves = pos vquote;
}

-- On positive amounts the split is `capped_worth`, and the rest is burned.
pub compute_distributable_lem :
    (total bought vtok vquote : ℕ)
    → 0 < total
    → 0 < bought
    → 0 < vquote
    → compute_distributable (pos total) (pos bought) (pos vtok) (pos vquote)
      ≡ ok (breakdown total bought vtok vquote)
unfolding compute_distributable
compute_distributable_lem total bought vtok vquote ht hb hq = ground arith

capped_worth_bounds :
    (total bought vtok vquote : ℕ)
    → 0 < vquote
    → let d = capped_worth total bought vtok vquote in
      (d + (bought - d) ≡ bought)
      × (d * vquote ≤ total * vtok)
      × ((d ≡ bought) ⊎ (total * vtok < (d + 1) * vquote))
capped_worth_bounds total bought vtok vquote h =
    grind (arith, div_mul_le (total * vtok) vquote, lt_mul_div (total * vtok) vquote h)

-- On positive amounts `compute_distributable` succeeds. What is kept and what is burned add up to
-- the tokens bought; at the final price `vquote / vtok` the tokens kept are worth at most the
-- lamports contributed; and either nothing is burned, or one token more would be worth more than
-- what was contributed.
pub compute_distributable_fair :
    (total bought vtok vquote : ℕ)
    → 0 < total
    → 0 < bought
    → 0 < vquote
    → (d b : ℕ) × (compute_distributable (pos total) (pos bought) (pos vtok) (pos vquote)
        ≡ ok (record {
          distributable = pos d;
          burned = pos b;
          total_contributed = pos total;
          tokens_bought = pos bought;
          post_virtual_token_reserves = pos vtok;
          post_virtual_quote_reserves = pos vquote;
        }))
      × (d + b ≡ bought)
      × (d * vquote ≤ total * vtok)
      × ((d ≡ bought) ⊎ (total * vtok < (d + 1) * vquote))
compute_distributable_fair total bought vtok vquote ht hb hq =
    let bounds = capped_worth_bounds total bought vtok vquote hq in
    (
      capped_worth total bought vtok vquote,
      bought - capped_worth total bought vtok vquote,
      compute_distributable_lem total bought vtok vquote ht hb hq,
      bounds.0,
      bounds.1,
      bounds.2,
    )

-- `compute_distributable` returns a breakdown exactly when the tokens bought, the quote reserves and
-- the contributions are all positive.
pub compute_distributable_defined :
    (total bought vtok vquote : ℤ)
    → (is_ok (compute_distributable total bought vtok vquote) ≡ true)
      ↔ ((pos 1 ≤ℤ bought) × (pos 1 ≤ℤ vquote) × (pos 1 ≤ℤ total))
unfolding compute_distributable
compute_distributable_defined total bought vtok vquote = (λ h. ground arith, λ h. ground arith)
