-- ===== src/Localnet/PoolDecode.antt =====
-- tests/localnet/src/pool-decode.ts: what the client reads from a Pool account. A byte past the end is
-- `undefined` there and a key is cut short, and then the next number read throws; here a missing byte
-- throws at once, with the same result.
pub mod Layout
use batch_it_protocol.Prelude.{
  List, Option, Result, [], drop, err, get_elem?, if◌then◌else◌, leb, length, ltb, none, ok, some,
  take, ℕ, ◌-◌, ◌∷◌, ◌^◌,
}
use batch_it_protocol.Prelude.Bytes.{from_le_bytes}
use batch_it_protocol.Prelude.Int.{negsuc, pos, ℤ}
use batch_it_protocol.Prelude.Words.{u64_mod}
use Prim.Native.String.{String}
use batch_it_protocol.Escrow.Types.{Pubkey}
use batch_it_protocol.Web3.{Web3}
use batch_it_protocol.Web3.Buffer.{RangeError, out_of_range}
use batch_it_protocol.Web3.Reader.{Reader, pure, read_key, read_u64, value, ◌>>=◌}

-- `STATUS_NAMES[status] ?? ...`
pub data StatusName : Type 0 where
  named : String → StatusName
  unknown : ℕ → StatusName

pub record DecodedPool : Type 0 where
  pub status : ℕ
  pub status_name : StatusName
  pub creator : Pubkey
  pub seed : ℕ
  pub mint : Pubkey
  pub launch_at : ℤ
  pub grace_ends_at : ℤ
  pub min_raise : ℕ
  pub max_pool : ℕ
  pub min_contribution : ℕ
  pub total_contributed : ℕ
  pub contributor_count : ℕ
  pub tokens_bought : ℕ
  pub distributable : ℕ
  pub burned : ℕ

abbrev pub status_names : List String
status_names = "Open" ∷ "Launching" ∷ "Bought" ∷ "Finalized" ∷ "Refundable" ∷ "Closed" ∷ []

unfoldable pub name_of : ℕ → StatusName
name_of status = elim (get_elem? status_names status) [ none ↦ unknown status | some s ↦ named s ]

unfoldable pub read_u8 : Reader ℕ
read_u8 [] = err out_of_range
read_u8 (b ∷ bytes) = ok (b, bytes)

-- `data.readUInt32LE(o)`, `o += 4`
unfoldable pub read_u32 : Reader ℕ
read_u32 bytes =
    if leb 4 (length bytes)
    then ok (from_le_bytes (take 4 bytes), drop 4 bytes)
    else err out_of_range

-- A number of 64 bits read with its sign.
abbrev pub to_i64 : ℕ → ℤ
to_i64 v = if ltb v (2 ^ 63) then pos v else negsuc (u64_mod - 1 - v)

-- `data.readBigInt64LE(o)`, `o += 8`
unfoldable pub read_i64 : Reader ℤ
read_i64 = do v ← read_u64; pure (to_i64 v)

module _ (w : Web3) where
  unfoldable pub read_pool : Reader DecodedPool
  unfolding name_of
  read_pool = do
    _bump ← read_u8
    _buyer_bump ← read_u8
    status ← read_u8
    creator ← read_key w
    seed ← read_u64
    mint ← read_key w
    launch_at ← read_i64
    grace_ends_at ← read_i64
    min_raise ← read_u64
    max_pool ← read_u64
    min_contribution ← read_u64
    total_contributed ← read_u64
    contributor_count ← read_u32
    tokens_bought ← read_u64
    distributable ← read_u64
    burned ← read_u64
    pure (record {
      status = status;
      status_name = name_of status;
      creator = creator;
      seed = seed;
      mint = mint;
      launch_at = launch_at;
      grace_ends_at = grace_ends_at;
      min_raise = min_raise;
      max_pool = max_pool;
      min_contribution = min_contribution;
      total_contributed = total_contributed;
      contributor_count = contributor_count;
      tokens_bought = tokens_bought;
      distributable = distributable;
      burned = burned;
    })

  -- The 8 bytes of the discriminator are skipped.
  unfoldable pub decode_pool : List ℕ → Result RangeError DecodedPool
  unfolding read_pool
  decode_pool bytes = value (read_pool (drop 8 bytes))
