-- ===== src/Prelude/Division.antt =====
-- Floor division by a variable: what the share formulas need.
use Prim.Native.Nat.{ℕ, suc, ◌+◌, ◌*◌, ◌/◌, ◌≤◌, ◌<◌}
use mathlib.Core.Path.{◌≡◌, ap}
use mathlib.Core.List.{List, [], ◌∷◌, map}
use native.Mathlib.Omega.{arith}
use batch_it_protocol.Prelude.Lists.{length, sum}

pub div_mul_le : (n d : ℕ) → n / d * d ≤ n
div_mul_le n d = grind arith

pub lt_mul_div : (n d : ℕ) → 0 < d → n < n / d * d + d
lt_mul_div n d h = grind arith

pub le_div : (k n d : ℕ) → 0 < d → k * d ≤ n → k ≤ n / d
le_div k n d h p = grind (arith, lt_mul_div n d)

pub div_lt : (k n d : ℕ) → n < k * d → n / d < k
div_lt k n d p = grind (arith, div_mul_le n d)

pub div_mono : (m n d : ℕ) → m ≤ n → m / d ≤ n / d
div_mono m n d p = grind (arith, div_mul_le m d, lt_mul_div n d)

pub add_div_le : (m n d : ℕ) → 0 < d → m / d + n / d ≤ (m + n) / d
add_div_le m n d h =
    le_div (m / d + n / d) (m + n) d h (omega (arith, div_mul_le m d, div_mul_le n d))

pub div_add_le : (m n d : ℕ) → 0 < d → (m + n) / d ≤ m / d + n / d + 1
div_add_le m n d h = omega (
  arith,
  div_lt (m / d + n / d + 2) (m + n) d (omega (arith, lt_mul_div m d h, lt_mul_div n d h)),
)

-- `floor(d * c / t)`, the share of `d` that belongs to a part `c` of `t`.
abbrev pub share : ℕ → ℕ → ℕ → ℕ
share d t c = d * c / t

pub share_add : (d t m n : ℕ) → d * (m + n) / t ≡ (d * m + d * n) / t
share_add d t m n = ap (λ (x : ℕ). x / t) (omega arith)

pub add_share_le : (d t m n : ℕ) → 0 < t → share d t m + share d t n ≤ share d t (m + n)
add_share_le d t m n h = omega (arith, share_add d t m n, add_div_le (d * m) (d * n) t h)

pub share_add_le : (d t m n : ℕ) → 0 < t → share d t (m + n) ≤ share d t m + share d t n + 1
share_add_le d t m n h = omega (arith, share_add d t m n, div_add_le (d * m) (d * n) t h)

pub share-zero : (d t : ℕ) → 0 < t → share d t 0 ≡ 0
share-zero d t h = omega (arith, div_lt 1 (d * 0) t (omega arith))

pub share-whole : (d t : ℕ) → 0 < t → share d t t ≡ d
share-whole d t h =
    omega (arith, le_div d (d * t) t h (omega arith), div_lt (suc d) (d * t) t (omega arith))

-- Shares of parts take at most the share of their sum, and leave at most one unit for each part.
pub sum-share-le : (d t : ℕ) (cs : List ℕ) → 0 < t → sum (map (share d t) cs) ≤ share d t (sum cs)
sum-share-le d t [] h = omega arith
sum-share-le d t (c ∷ cs) h = omega (arith, sum-share-le d t cs h, add_share_le d t c (sum cs) h)

pub share-sum-le :
    (d t : ℕ) (cs : List ℕ) → 0 < t → share d t (sum cs) ≤ sum (map (share d t) cs) + length cs
share-sum-le d t [] h = omega (arith, share-zero d t h)
share-sum-le d t (c ∷ cs) h = omega (arith, share-sum-le d t cs h, share_add_le d t c (sum cs) h)

pub share_mono : (d t m n : ℕ) → m ≤ n → share d t m ≤ share d t n
share_mono d t m n h = div_mono (d * m) (d * n) t (grind arith)

le_of_mul_le : (a b t : ℕ) → 0 < t → a * t ≤ b * t → a ≤ b
le_of_mul_le a b t h p = grind arith

pub mul_mono : (a b c : ℕ) → a ≤ b → a * c ≤ b * c
mul_mono a b c p = grind arith

-- A share of a thing worth at most `v / q` for each unit of `t` is worth at most that.
pub share_worth : (d t c v q : ℕ) → 0 < t → d * q ≤ t * v → share d t c * q ≤ c * v
share_worth d t c v q h p = le_of_mul_le (share d t c * q) (c * v) t h (
    omega (
      arith,
      mul_mono (share d t c * t) (d * c) q (div_mul_le (d * c) t),
      mul_mono (d * q) (t * v) c p,
    ))
