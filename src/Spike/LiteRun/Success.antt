-- ===== src/Spike/LiteRun/Success.antt =====
-- When a run through the lite program succeeds.
use batch_it_protocol.Prelude.{List, [], arith, get_elem?, length, refl, some, ℕ, ◌<◌, ◌≡◌, ◌∷◌}
use Prim.Native.String.{String}
use batch_it_protocol.Web3.{Web3}

pub first_of :
    {A : Type 0} (n : ℕ) (xs : List A) → length xs ≡ n → 0 < n → (x : A) × (get_elem? xs 0 ≡ some x)
first_of n [] h k = absurd (omega arith)
first_of n (x ∷ xs) h k = (x, refl)
