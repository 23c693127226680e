-- ===== src/Spike/Pump/Create.antt =====
-- The data of the creation, read back by the argument types of the pinned IDL
-- (third_party/pump-public-docs/pump.json): three strings and a key.
use batch_it_protocol.Prelude.{
  List, [], arith, drop, err, if◌then◌else◌, leb, length, length-append, ok, refl, sym, take, true,
  ℕ, ≤→leb, ◌++◌, ◌<◌, ◌^◌, ◌≡◌,
}
use mathlib.Core.List.{append-nil}
use mathlib.Core.Path.{subst}
use batch_it_protocol.Prelude.Bytes.{
  from_le_bytes, from_le_bytes-le_bytes, le_bytes, length-le_bytes,
}
use batch_it_protocol.Prelude.Words.{u32_mod}
use Prim.Native.String.{String}
use batch_it_protocol.Escrow.Types.{Pubkey}
use batch_it_protocol.Web3.{Instruction, IsWeb3, Web3, to_buffer}
use batch_it_protocol.Web3.Buffer.{drop_prefix, out_of_range, take_prefix, write_u32-alloc}
use batch_it_protocol.Web3.Reader.{
  Reader, Reads, Reads-bind, Reads-map, pure, read_key, read_key-Reads, ◌>>=◌,
}
use batch_it_protocol.Spike.Pump.{
  CreateParams, build_create_ix, create_discriminator, create_keys, pump_program_id, encode_string,
}

pub read_bytes : ℕ → Reader (List ℕ)
read_bytes n bytes =
    if leb n (length bytes) then ok (take n bytes, drop n bytes) else err out_of_range

-- A string is its length in 4 bytes and its bytes.
abbrev pub read_text : Reader (List ℕ)
read_text = do size ← read_bytes 4; read_bytes (from_le_bytes size)

abbrev pub read_create_args : Web3 → Reader (List ℕ × List ℕ × List ℕ × Pubkey)
read_create_args w = do
  name ← read_text
  symbol ← read_text
  uri ← read_text
  creator ← read_key w
  pure (name, symbol, uri, creator)

read_bytes-Reads : (n : ℕ) (bytes : List ℕ) → length bytes ≡ n → Reads (read_bytes n) bytes bytes
unfolding read_bytes
read_bytes-Reads n bytes h = record {
  at = λ left.
      let enough : leb n (length (bytes ++ left)) ≡ true =
        ≤→leb _ _ (omega (arith, h, length-append bytes left)) in
      rw (enough, take_prefix n bytes left h, drop_prefix n bytes left h) refl;
}

read_text-Reads :
    (bytes : List ℕ)
    → length bytes < u32_mod
    → Reads read_text (le_bytes 4 (length bytes) ++ bytes) bytes
read_text-Reads bytes h =
    Reads-bind (read_bytes 4) (λ size. read_bytes (from_le_bytes size))
      (read_bytes-Reads 4 (le_bytes 4 (length bytes)) (length-le_bytes 4 (length bytes)))
      (read_bytes-Reads (from_le_bytes (le_bytes 4 (length bytes))) bytes
        (sym (from_le_bytes-le_bytes 4 (length bytes) h)))

module _ (w : Web3) where
  encode_string-text :
      (s : String)
      → length (w.utf8 s) < u32_mod
      → encode_string w s ≡ ok (le_bytes 4 (length (w.utf8 s)) ++ w.utf8 s)
  unfolding encode_string
  encode_string-text s h =
      rw (write_u32-alloc (length (w.utf8 s)) h, append-nil (le_bytes 4 (length (w.utf8 s)))) refl

  pub create_ix : CreateParams → Instruction
  create_ix p =
      let text = λ (x : String). le_bytes 4 (length (w.utf8 x)) ++ w.utf8 x in
      record {
        program_id = pump_program_id w;
        keys = create_keys w p;
        data_bytes =
            create_discriminator
            ++ (text p.name ++ (text p.symbol ++ (text p.uri ++ to_buffer p.creator)));
      }

  pub build_create_ix-built :
      (p : CreateParams)
      → length (w.utf8 p.name) < u32_mod
      → length (w.utf8 p.symbol) < u32_mod
      → length (w.utf8 p.uri) < u32_mod
      → build_create_ix w p ≡ ok (create_ix p)
  unfolding build_create_ix create_ix
  build_create_ix-built p hn hs hu =
      rw (encode_string-text p.name hn, encode_string-text p.symbol hs, encode_string-text p.uri hu)
        refl

  -- With strings of less than 2^32 bytes buildCreateIx builds an instruction whose data is the
  -- discriminator of create, from which the IDL's types read back the strings and the creator, and
  -- nothing more.
  pub build_create_ix-data :
      IsWeb3 w
      → (p : CreateParams) → length (w.utf8 p.name) < u32_mod
      → length (w.utf8 p.symbol) < u32_mod
      → length (w.utf8 p.uri) < u32_mod
      → p.creator < 256 ^ 32
      → (ix : Instruction) × (build_create_ix w p ≡ ok ix)
        × (take 8 ix.data_bytes ≡ create_discriminator)
        × (read_create_args w (drop 8 ix.data_bytes)
            ≡ ok ((w.utf8 p.name, w.utf8 p.symbol, w.utf8 p.uri, p.creator), []))
  unfolding create_ix
  build_create_ix-data legal p hn hs hu hc =
      let text = λ (x : String). le_bytes 4 (length (w.utf8 x)) ++ w.utf8 x in
      let bytes = text p.name ++ (text p.symbol ++ (text p.uri ++ to_buffer p.creator)) in
      let value : List ℕ × List ℕ × List ℕ × Pubkey =
        (w.utf8 p.name, w.utf8 p.symbol, w.utf8 p.uri, p.creator) in
      let args : Reads (read_create_args w) bytes value =
        Reads-bind _ _ (read_text-Reads (w.utf8 p.name) hn) (
          Reads-bind _ _ (read_text-Reads (w.utf8 p.symbol) hs) (
            Reads-bind _ _ (read_text-Reads (w.utf8 p.uri) hu)
              (Reads-map (read_key w) _ (read_key-Reads w legal p.creator hc)))) in
      (
        create_ix p,
        build_create_ix-built p hn hs hu,
        refl,
        subst (λ t. read_create_args w t ≡ ok (value, [])) (append-nil bytes) (args.at []),
      )
