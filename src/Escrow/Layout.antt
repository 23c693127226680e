-- ===== src/Escrow/Layout.antt =====
-- programs/batchit/src/state.rs: the accounts as Borsh writes them behind the discriminator of 8 bytes, and
-- the space that the program gives them.
use batch_it_protocol.Prelude.{
  List, [], length, length-append, ℕ, ◌+◌, ◌++◌, ◌-◌, ◌<◌, ◌^◌, ◌≡◌, ◌∷◌,
}
use batch_it_protocol.Prelude.Bytes.{le_bytes, length-le_bytes}
use batch_it_protocol.Prelude.Int.{negsuc, pos, ℤ}
use batch_it_protocol.Prelude.Words.{u64_mod}
use batch_it_protocol.Escrow.Types.{Contribution, Pool, discriminant}
use batch_it_protocol.Web3.{to_buffer}
use batch_it_protocol.Web3.Reader.{flag}

-- An `i64`, and its bytes in two's complement.
abbrev pub IsI64 : ℤ → Type 0
IsI64 (pos n) = n < 2 ^ 63
IsI64 (negsuc n) = n < 2 ^ 63

abbrev pub i64_bytes : ℤ → List ℕ
i64_bytes (pos n) = le_bytes 8 n
i64_bytes (negsuc n) = le_bytes 8 (u64_mod - 1 - n)

-- The fields as Borsh writes them, up to the last that the client reads.
abbrev pub pool_front : Pool → List ℕ
pool_front p =
    (p.bump ∷ [])
    ++ ((p.buyer_bump ∷ [])
        ++ ((discriminant p.status ∷ [])
            ++ (to_buffer p.creator
                ++ (le_bytes 8 p.seed
                    ++ (to_buffer p.mint
                        ++ (i64_bytes p.launch_at
                            ++ (i64_bytes p.grace_ends_at
                                ++ (le_bytes 8 p.min_raise_lamports
                                    ++ (le_bytes 8 p.max_pool_lamports
                                        ++ (le_bytes 8 p.min_contribution_lamports
                                            ++ (le_bytes 8 p.total_contributed
                                                ++ (le_bytes 4 p.contributor_count
                                                    ++ (le_bytes 8 p.tokens_bought
                                                        ++ (le_bytes 8 p.distributable
                                                            ++ le_bytes 8 p.burned))))))))))))))

abbrev pub pool_back : Pool → List ℕ
pool_back p =
    le_bytes 8 p.post_virtual_token_reserves
    ++ (le_bytes 8 p.post_virtual_quote_reserves
        ++ (le_bytes 8 p.total_claimed ++ le_bytes 8 p.total_refunded))

-- An account: the discriminator, and the fields.
abbrev pub pool_bytes : List ℕ → Pool → List ℕ
pool_bytes disc p = disc ++ (pool_front p ++ pool_back p)

-- The fields of a Contribution account.
abbrev pub contribution_bytes : List ℕ → Contribution → List ℕ
contribution_bytes disc c =
    disc
    ++ ((c.bump ∷ [])
        ++ (to_buffer c.pool
            ++ (to_buffer c.contributor
                ++ (le_bytes 8 c.amount ++ ((flag c.claimed ∷ []) ++ (flag c.refunded ∷ []))))))

-- `Pool::LEN`
abbrev pub pool_len : ℕ
pool_len = 8 + 1 + 1 + 1 + 32 + 8 + 32 + 8 + 8 + 8 + 8 + 8 + 8 + 4 + 8 + 8 + 8 + 8 + 8 + 8 + 8

-- `Contribution::LEN`
abbrev pub contribution_len : ℕ
contribution_len = 8 + 1 + 32 + 32 + 8 + 1 + 1

length-i64_bytes : (z : ℤ) → length (i64_bytes z) ≡ 8
length-i64_bytes (pos n) = length-le_bytes 8 n
length-i64_bytes (negsuc n) = length-le_bytes 8 (u64_mod - 1 - n)

-- `Pool::LEN` and `Contribution::LEN` are the sizes of the accounts' bytes, whatever the accounts hold:
-- an account made with that space has room for all of them, and nothing is left over.
pub accounts_fit :
    (disc : List ℕ) (p : Pool) (c : Contribution)
    → length disc ≡ 8
    → (length (pool_bytes disc p) ≡ pool_len)
      × (length (contribution_bytes disc c) ≡ contribution_len)
accounts_fit disc p c e = (
  simp (length-append, length-le_bytes, length-i64_bytes, e),
  simp (length-append, length-le_bytes, e),
)
