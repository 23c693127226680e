-- ===== src/Burn/Allocations.antt =====
-- What `allocation` guarantees to the contributors together.
use batch_it_protocol.Prelude.{
  List, Result, [], ap, arith, err, is_ok, length, map, ok, refl, sum, ℕ, ◌*◌, ◌+◌, ◌<◌, ◌∷◌, ◌≡◌,
  ◌≤◌,
}
use batch_it_protocol.Prelude.Division.{
  add_share_le, share, share-sum-le, share-whole, share-zero, share_add_le, share_mono, share_worth,
  sum-share-le,
}
use batch_it_protocol.Prelude.Int.{pos, pos_part, ℤ}
use batch_it_protocol.Burn.{BurnBreakdown, BurnError, allocation, compute_distributable}
use batch_it_protocol.Burn.Split.{compute_distributable_defined, compute_distributable_fair}

-- The tokens that a call pays out.
abbrev pub paid : Result BurnError ℤ → ℕ
paid (ok a) = pos_part a
paid (err _) = 0

pub allocation_lem :
    (d c t : ℕ) → 0 < t → allocation (pos d) (pos c) (pos t) ≡ ok (pos (share d t c))
unfolding allocation
allocation_lem d c t h = ground (arith, share-zero d t h, share-zero c t h)

-- What each of the contributions is paid.
abbrev pub payouts : ℕ → ℕ → List ℕ → List ℕ
payouts d t cs = map (λ c. paid (allocation (pos d) (pos c) (pos t))) cs

payouts-shares : (d t : ℕ) (cs : List ℕ) → 0 < t → payouts d t cs ≡ map (share d t) cs
payouts-shares d t [] h = refl
payouts-shares d t (c ∷ cs) h = rw (allocation_lem d c t h, payouts-shares d t cs h)

-- Contributions that sum up to at most the total, which is positive, are together paid at most the
-- distributable tokens.
pub payouts_solvent : (d t : ℕ) (cs : List ℕ) → 0 < t → sum cs ≤ t → sum (payouts d t cs) ≤ d
payouts_solvent d t cs h fits =
    rw (payouts-shares d t cs h)
      (omega (arith, sum-share-le d t cs h, share-whole d t h, share_mono d t (sum cs) t fits))

-- If the contributions are the whole total, which is positive, rounding leaves at most one token for
-- each of them.
pub payouts_dust :
    (d t : ℕ) (cs : List ℕ) → 0 < t → sum cs ≡ t → d ≤ sum (payouts d t cs) + length cs
payouts_dust d t cs h whole =
    rw (payouts-shares d t cs h)
      (omega (arith, share-sum-le d t cs h, share-whole d t h, ap (share d t) whole))

-- Splitting a contribution in two, out of a positive total, gains nothing, and loses at most one token.
pub allocation_split :
    (d t m n : ℕ)
    → 0 < t
    → let whole = paid (allocation (pos d) (pos (m + n)) (pos t)) in
      let parts =
        paid (allocation (pos d) (pos m) (pos t)) + paid (allocation (pos d) (pos n) (pos t)) in
      (parts ≤ whole) × (whole ≤ parts + 1)
allocation_split d t m n h =
    rw (allocation_lem d (m + n) t h, allocation_lem d m t h, allocation_lem d n t h)
      (add_share_le d t m n h, share_add_le d t m n h)

-- The tokens paid for a contribution `c` out of a split that was computed on amounts that are not
-- negative are worth at most `c` lamports at the final price `vquote / vtok`.
pub allocation_worth :
    (total bought vtok vquote c : ℕ) (r : BurnBreakdown)
    → compute_distributable (pos total) (pos bought) (pos vtok) (pos vquote) ≡ ok r
    → paid (allocation r.distributable (pos c) (pos total)) * vquote ≤ c * vtok
allocation_worth total bought vtok vquote c r e =
    let (hb, hq, ht) =
      (compute_distributable_defined (pos total) (pos bought) (pos vtok) (pos vquote)).0
        (ap is_ok e) in
    let (d, b, same, _, worth, _) =
      compute_distributable_fair total bought vtok vquote (omega arith) (omega arith)
        (omega arith) in
    let kept : r.distributable ≡ pos d = ground (arith, same, e) in
    rw (kept, allocation_lem d c total (omega arith))
      (share_worth d total c vtok vquote (omega arith) worth)
