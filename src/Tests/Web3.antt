-- ===== src/Tests/Web3.antt =====
-- Libraries that behave as documented: a key is the number of its bytes, a derived address depends on
-- its seeds and its program, and every hash is the same 32 bytes.
use batch_it_protocol.Prelude.{List, [], length, refl, replicate, ok, ℕ, ◌*◌, ◌+◌, ◌∷◌}
use batch_it_protocol.Prelude.Bytes.{from_le_bytes, from_le_bytes-le_bytes}
use batch_it_protocol.Web3.{Instruction, IsWeb3, Web3}
use batch_it_protocol.Spike.Lite.{Solana}

abbrev seeds_size : List (List ℕ) → ℕ
seeds_size [] = 0
seeds_size (s ∷ ss) = length s + 40 * seeds_size ss

abbrev pub web3 : Web3
web3 = record {
  from_base58 = λ text. 900;
  from_bytes = from_le_bytes;
  find_program_address = λ seeds program. (program + seeds_size seeds, 254);
  associated_token_address = λ mint owner program. mint + 100 * owner + program;
  system_program = 1;
  token_program = 2;
  associated_token_program = 3;
  rent_sysvar = 4;
  utf8 = λ text. 98 ∷ 117 ∷ 121 ∷ [];
  sha256 = λ text. replicate 32 9;
}

pub web3-IsWeb3 : IsWeb3 web3
web3-IsWeb3 = record {
  key_of_bytes = λ k h. from_le_bytes-le_bytes 32 k h;
  hash_size = λ text. refl;
}

-- A chain on which every call succeeds; its state is the last call.
abbrev pub solana : Solana Instruction
solana = record {
  invoke_signed = λ ix infos seeds. ok ix;
  transfer = λ from to lamports. record { program_id = 1; keys = []; data_bytes = lamports ∷ [] };
}
