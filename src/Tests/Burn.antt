-- ===== src/Tests/Burn.antt =====
-- Instances of the theorems about the split of the tokens.
use batch_it_protocol.Prelude.{
  is_ok, true, ◌↔◌, [], arith, ok, refl, sum, ℕ, ◌*◌, ◌+◌, ◌<◌, ◌≡◌, ◌≤◌, ◌∷◌, ◌⊎◌,
}
use batch_it_protocol.Prelude.Int.{pos, ◌≤ℤ◌}
use batch_it_protocol.Burn.{allocation, compute_distributable}
use batch_it_protocol.Burn.Allocations.{
  allocation_split, allocation_worth, paid, payouts, payouts_dust, payouts_solvent,
}
use batch_it_protocol.Burn.Split.{
  breakdown, compute_distributable_defined, compute_distributable_fair,
}

compute_distributable_fair_example :
    (d b : ℕ) × (compute_distributable (pos 10) (pos 60) (pos 101) (pos 20)
      ≡ ok (record {
        distributable = pos d;
        burned = pos b;
        total_contributed = pos 10;
        tokens_bought = pos 60;
        post_virtual_token_reserves = pos 101;
        post_virtual_quote_reserves = pos 20;
      }))
    × (d + b ≡ 60)
    × (d * 20 ≤ 10 * 101)
    × ((d ≡ 60) ⊎ (10 * 101 < (d + 1) * 20))
compute_distributable_fair_example =
    compute_distributable_fair 10 60 101 20 (omega arith) (omega arith) (omega arith)

payouts_solvent_example : sum (payouts 100 3 (1 ∷ 1 ∷ 1 ∷ [])) ≤ 100
payouts_solvent_example = payouts_solvent 100 3 (1 ∷ 1 ∷ 1 ∷ []) (omega arith) (omega arith)

payouts_dust_example : 100 ≤ sum (payouts 100 3 (1 ∷ 1 ∷ 1 ∷ [])) + 3
payouts_dust_example = payouts_dust 100 3 (1 ∷ 1 ∷ 1 ∷ []) (omega arith) refl

splitting_loses_one :
    let whole = paid (allocation (pos 100) (pos 2) (pos 3)) in
    let parts =
      paid (allocation (pos 100) (pos 1) (pos 3)) + paid (allocation (pos 100) (pos 1) (pos 3)) in
    (parts ≤ whole) × (whole ≤ parts + 1)
splitting_loses_one = allocation_split 100 3 1 1 (omega arith)

split_example :
    compute_distributable (pos 10) (pos 60) (pos 100) (pos 20) ≡ ok (breakdown 10 60 100 20)
unfolding compute_distributable
split_example = refl

allocation_worth_example : paid (allocation (pos 50) (pos 6) (pos 10)) * 20 ≤ 6 * 100
allocation_worth_example = allocation_worth 10 60 100 20 6 (breakdown 10 60 100 20) split_example

split_defined :
    (is_ok (compute_distributable (pos 10) (pos 60) (pos 100) (pos 20)) ≡ true)
    ↔ ((pos 1 ≤ℤ pos 60) × (pos 1 ≤ℤ pos 20) × (pos 1 ≤ℤ pos 10))
split_defined = compute_distributable_defined (pos 10) (pos 60) (pos 100) (pos 20)
