-- ===== src/Prelude/Maps.antt =====
-- A map from numbers, as a list of entries: `lookup` finds the first, `insert` replaces it in place.
use Prim.Native.Nat.{ℕ, ◌+◌, ◌≤◌}
use mathlib.Core.Path.{◌≡◌, ap, refl, subst}
use mathlib.Core.Logic.{inl, inr}
use mathlib.Core.Bool.{false}
use mathlib.Core.Option.{Option, none, some}
use mathlib.Core.List.{List, [], ◌∷◌}
use native.Mathlib.Omega.{arith}
use batch_it_protocol.Prelude.Tests.{◌==◌, Bool-cases, if◌then◌else◌}

module _ {ℓ} {V : Type ℓ} where
  abbrev pub lookup : ℕ → List (ℕ × V) → Option V
  lookup k [] = none
  lookup k ((j, v) ∷ m) = if k == j then some v else lookup k m

  abbrev pub insert : ℕ → V → List (ℕ × V) → List (ℕ × V)
  insert k v [] = (k, v) ∷ []
  insert k v (e ∷ m) = if k == e.0 then (k, v) ∷ m else e ∷ insert k v m

  pub lookup-insert :
      (j k : ℕ) (v : V) (m : List (ℕ × V))
      → lookup j (insert k v m) ≡ (if j == k then some v else lookup j m)
  lookup-insert j k v [] = ground arith
  lookup-insert j k v (e ∷ m) = ground (arith, lookup-insert j k v m)

  -- Two values are written in place in either order.
  pub insert-insert :
      (j k : ℕ) (v w : V) (m : List (ℕ × V)) {v' w' : V}
      → (j == k) ≡ false
      → lookup j m ≡ some v'
      → lookup k m ≡ some w'
      → insert j v (insert k w m) ≡ insert k w (insert j v m)
  insert-insert j k v w [] h p q = absurd (ground arith)
  insert-insert j k v w ((i, x) ∷ m) {v'} {w'} h p q = elim (Bool-cases (j == i)) [
    | inl same ↦
        let k_other : (k == i) ≡ false = ground arith in
        let k_not_j : (k == j) ≡ false = ground arith in rw (k_other, same, k_not_j) refl
    | inr other ↦ elim (Bool-cases (k == i)) [
      | inl same' ↦ rw (same', other, h) (rw same' refl)
      | inr other' ↦
          rw (other', other)
            (rw other' (
              ap (λ t. (i, x) ∷ t)
                (insert-insert j k v w m {v' = v'} {w' = w'} h (ground arith) (ground arith))))
    ]
  ]

-- The sum of a measure over the values of a map.
module _ {ℓ} {V : Type ℓ} (f : V → ℕ) where
  unfoldable pub weight : List (ℕ × V) → ℕ
  weight [] = 0
  weight ((_, v) ∷ m) = f v + weight m

  abbrev pub measure : Option V → ℕ
  measure none = 0
  measure (some v) = f v

  pub weight-nil : weight [] ≡ 0
  unfolding weight
  weight-nil = refl

  -- An insertion takes the old value's measure out and puts the new one's in.
  pub weight-insert :
      (k : ℕ) (v : V) (m : List (ℕ × V))
      → weight (insert k v m) + measure (lookup k m) ≡ weight m + f v
  unfolding weight
  weight-insert k v [] = omega arith
  weight-insert k v (e ∷ m) = ground (arith, weight-insert k v m)

  pub lookup-le-weight : (k : ℕ) (m : List (ℕ × V)) → measure (lookup k m) ≤ weight m
  unfolding weight
  lookup-le-weight k [] = omega arith
  lookup-le-weight k (e ∷ m) = ground (arith, lookup-le-weight k m)

-- A property of every entry.
module _ {ℓ κ} {V : Type ℓ} (P : ℕ → V → Type κ) where
  abbrev pub AllEntries : List (ℕ × V) → Type κ
  AllEntries [] = Unit
  AllEntries ((k, v) ∷ m) = P k v × AllEntries m

  pub AllEntries-insert :
      (k : ℕ) (v : V) (m : List (ℕ × V)) → P k v → AllEntries m → AllEntries (insert k v m)
  AllEntries-insert k v [] p h = (p, tt)
  AllEntries-insert k v ((j, w) ∷ m) p h = elim (Bool-cases (k == j)) [
    | inl same ↦ rw same (p, h.1)
    | inr other ↦ rw other (h.0, AllEntries-insert k v m p h.1)
  ]

  pub AllEntries-lookup :
      (k : ℕ) (m : List (ℕ × V)) {v : V} → AllEntries m → lookup k m ≡ some v → P k v
  AllEntries-lookup k [] h e = cc
  AllEntries-lookup k ((j, w) ∷ m) {v} h e = elim (Bool-cases (k == j)) [
    | inl same ↦
        let found : w ≡ v = ground arith in
        let key : j ≡ k = ground arith in subst (λ t. P k t) found (subst (λ t. P t w) key h.0)
    | inr other ↦ AllEntries-lookup k m h.1 (ground arith)
  ]

pub AllEntries-mono {ℓ κ μ} :
    {V : Type ℓ} (P : ℕ → V → Type κ) (Q : ℕ → V → Type μ) (m : List (ℕ × V))
    → ((k : ℕ) (v : V) → P k v → Q k v)
    → AllEntries P m
    → AllEntries Q m
AllEntries-mono P Q [] f h = tt
AllEntries-mono P Q ((k, v) ∷ m) f h = (f k v h.0, AllEntries-mono P Q m f h.1)

-- Measures that agree on every entry have the same sum; a measure that is larger has a larger one.
pub weight_mono {ℓ} :
    {V : Type ℓ} (f g : V → ℕ) (m : List (ℕ × V))
    → AllEntries (λ _ v. f v ≤ g v) m
    → weight f m ≤ weight g m
unfolding weight
weight_mono f g [] h = omega arith
weight_mono f g ((k, v) ∷ m) h = omega (arith, weight_mono f g m h.1)

-- No key stands twice, and an insertion keeps it so.
module _ {ℓ} {V : Type ℓ} where
  abbrev pub IsDistinct : List (ℕ × V) → Type ℓ
  IsDistinct [] = Unit
  IsDistinct ((k, v) ∷ m) = (lookup k m ≡ none) × IsDistinct m

  pub insert-IsDistinct :
      (k : ℕ) (v : V) (m : List (ℕ × V)) → IsDistinct m → IsDistinct (insert k v m)
  insert-IsDistinct k v [] h = (refl, tt)
  insert-IsDistinct k v ((j, w) ∷ m) h = elim (Bool-cases (k == j)) [
    | inl same ↦
        let key : j ≡ k = ground arith in rw same (subst (λ t. lookup t m ≡ none) key h.0, h.1)
    | inr other ↦
        rw other ((ground (arith, lookup-insert j k v m, h.0)), insert-IsDistinct k v m h.1)
  ]
