-- ===== src/Web3.antt =====
-- What the TypeScript clients call of @solana/web3.js, @solana/spl-token, bs58 and Node, and the
-- instructions that they build. A `PublicKey` is the number that its 32 bytes spell.
pub mod Buffer
pub mod Reader
use batch_it_protocol.Prelude.{Bool, List, length, ℕ, ◌<◌, ◌^◌, ◌≡◌}
use batch_it_protocol.Prelude.Bytes.{le_bytes}
use batch_it_protocol.Escrow.Types.{Pubkey}
use Prim.Native.String.{String}

pub record Web3 : Type 0 where
  -- `new PublicKey(text)` and `new PublicKey(bytes)`
  pub from_base58 : String → Pubkey
  pub from_bytes : List ℕ → Pubkey
  -- `PublicKey.findProgramAddressSync(seeds, program)`: the address and its bump
  pub find_program_address : List (List ℕ) → Pubkey → Pubkey × ℕ
  -- `getAssociatedTokenAddressSync(mint, owner, true, tokenProgram)`
  pub associated_token_address : Pubkey → Pubkey → Pubkey → Pubkey
  pub system_program : Pubkey
  pub token_program : Pubkey
  pub associated_token_program : Pubkey
  pub rent_sysvar : Pubkey
  -- `Buffer.from(text)`, which encodes by UTF-8
  pub utf8 : String → List ℕ
  -- `createHash("sha256").update(text).digest()`
  pub sha256 : String → List ℕ

-- The documented behaviour of the libraries: a key is made of its 32 bytes, and a hash has 32 bytes.
pub record IsWeb3 (w : Web3) : Type 0 where
  pub key_of_bytes : (k : ℕ) → k < 256 ^ 32 → w.from_bytes (le_bytes 32 k) ≡ k
  pub hash_size : (text : String) → length (w.sha256 text) ≡ 32

-- `key.toBuffer()`
abbrev pub to_buffer : Pubkey → List ℕ
to_buffer k = le_bytes 32 k

pub record AccountMeta : Type 0 where
  pub pubkey : Pubkey
  pub is_signer : Bool
  pub is_writable : Bool

pub record Instruction : Type 0 where
  pub program_id : Pubkey
  pub keys : List AccountMeta
  pub data_bytes : List ℕ
