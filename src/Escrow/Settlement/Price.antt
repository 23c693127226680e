-- ===== src/Escrow/Settlement/Price.antt =====
-- `finalize` takes the price from the account that its caller passes as `bonding_curve`, on which
-- `#[derive(Accounts)]` puts no constraint.
use batch_it_protocol.Prelude.{List, [], ℕ, ◌∷◌}
use batch_it_protocol.Escrow.Runtime.{Runtime}

-- 40 bytes that decode as 1 virtual token and 2^64 - 1 lamports of virtual quote.
abbrev pub worthless_curve : List ℕ
worthless_curve =
    0 ∷ 0 ∷ 0 ∷ 0 ∷ 0 ∷ 0 ∷ 0 ∷ 0 ∷ 1 ∷ 0 ∷ 0 ∷ 0 ∷ 0 ∷ 0 ∷ 0 ∷ 0 ∷ 255 ∷ 255 ∷ 255 ∷ 255 ∷ 255
    ∷ 255 ∷ 255 ∷ 255 ∷ 0 ∷ 0 ∷ 0 ∷ 0 ∷ 0 ∷ 0 ∷ 0 ∷ 0 ∷ 0 ∷ 0 ∷ 0 ∷ 0 ∷ 0 ∷ 0 ∷ 0 ∷ 0 ∷ []
