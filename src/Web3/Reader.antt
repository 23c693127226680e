-- ===== src/Web3/Reader.antt =====
-- Reading a `Buffer` at an offset that moves on. The state is the buffer from the offset on.
use batch_it_protocol.Prelude.{
  ◌+◌, ≤→leb, arith, ◌<◌, ◌^◌, false, List, Result, [], drop, err, if◌then◌else◌, leb, length,
  length-append, ok, refl, take, zero, suc, ℕ, ◌++◌, ◌==◌, ◌≡◌, ◌∷◌, Bool, not, true,
}
use mathlib.Core.List.{append_assoc}
use batch_it_protocol.Prelude.Bytes.{
  from_le_bytes, from_le_bytes-le_bytes, length-le_bytes, le_bytes,
}
use batch_it_protocol.Prelude.Words.{u64_mod}
use batch_it_protocol.Web3.{Web3, IsWeb3}
use batch_it_protocol.Escrow.Types.{Pubkey}
use batch_it_protocol.Web3.Buffer.{take_prefix, drop_prefix, RangeError, out_of_range}

abbrev pub Reader : Type 0 → Type 0
Reader A = List ℕ → Result RangeError (A × List ℕ)

abbrev pub continue :
    {A B : Type 0}
    → Result RangeError (A × List ℕ)
    → (A → Reader B)
    → Result RangeError (B × List ℕ)
continue (ok (a, left)) f = f a left
continue (err e) f = err e

infixl 5 ◌>>=◌ ◌>>◌
abbrev pub ◌>>=◌ : {A B : Type 0} → Reader A → (A → Reader B) → Reader B
◌>>=◌ m f bytes = continue (m bytes) f

abbrev pub ◌>>◌ : {A B : Type 0} → Reader A → Reader B → Reader B
◌>>◌ m n bytes = continue (m bytes) (λ _. n)

abbrev pub pure : {A : Type 0} → A → Reader A
pure a bytes = ok (a, bytes)

-- What a reader has returned, whatever it has left.
abbrev pub value : {A : Type 0} → Result RangeError (A × List ℕ) → Result RangeError A
value (ok (a, _)) = ok a
value (err e) = err e

-- `data[o++]! !== 0`: past the end the byte is `undefined`, which is not 0.
unfoldable pub read_bool : Reader Bool
read_bool [] = ok (true, [])
read_bool (b ∷ bytes) = ok (not (b == 0), bytes)

-- `data.readBigUInt64LE(o)`, `o += 8`
unfoldable pub read_u64 : Reader ℕ
read_u64 bytes =
    if leb 8 (length bytes)
    then ok (from_le_bytes (take 8 bytes), drop 8 bytes)
    else err out_of_range

-- `new PublicKey(data.subarray(o, o + 32))`, `o += 32`
unfoldable pub read_key : Web3 → Reader Pubkey
read_key w bytes = ok (w.from_bytes (take 32 bytes), drop 32 bytes)

-- `for (let i = 0; i < n; i++) keys.push(readPubkey())`
unfoldable pub read_keys : Web3 → ℕ → Reader (List Pubkey)
read_keys w zero = pure []
read_keys w (suc n) = do key ← read_key w; keys ← read_keys w n; pure (key ∷ keys)

-- On the bytes given, whatever follows them, the reader returns the value given and stops behind them.
pub record Reads {A : Type 0} (m : Reader A) (bytes : List ℕ) (a : A) : Type 0 where
  pub at : (left : List ℕ) → m (bytes ++ left) ≡ ok (a, left)

pub Reads-pure : {A : Type 0} (a : A) → Reads (pure a) [] a
Reads-pure a = record { at = λ left. refl }

pub Reads-bind :
    {A B : Type 0} (m : Reader A) (f : A → Reader B) {bytes more : List ℕ} {a : A} {b : B}
    → Reads m bytes a
    → Reads (f a) more b
    → Reads (m >>= f) (bytes ++ more) b
Reads-bind m f {bytes} {more} h k = record {
  at = λ left. rw (append_assoc bytes more left, h.at (more ++ left), k.at left) refl;
}

pub Reads-map :
    {A B : Type 0} (m : Reader A) (f : A → B) {bytes : List ℕ} {a : A}
    → Reads m bytes a
    → Reads (m >>= λ x. pure (f x)) bytes (f a)
Reads-map m f h = record { at = λ left. rw (h.at left) refl }

-- The byte of a flag.
abbrev pub flag : Bool → ℕ
flag true = 1
flag false = 0

pub read_bool-Reads : (b : Bool) → Reads read_bool (flag b ∷ []) b
unfolding read_bool
read_bool-Reads true = record { at = λ left. refl }
read_bool-Reads false = record { at = λ left. refl }

pub read_u64-Reads : (v : ℕ) → v < u64_mod → Reads read_u64 (le_bytes 8 v) v
unfolding read_u64
read_u64-Reads v h = record {
  at = λ left.
      let size = length-le_bytes 8 v in
      let enough : leb 8 (length (le_bytes 8 v ++ left)) ≡ true =
        rw (length-append (le_bytes 8 v) left, size) (≤→leb 8 (8 + length left) (omega arith)) in
      rw
        (
          enough,
          take_prefix 8 (le_bytes 8 v) left size,
          drop_prefix 8 (le_bytes 8 v) left size,
          from_le_bytes-le_bytes 8 v h,
        )
        refl;
}

pub read_key-Reads :
    (w : Web3) → IsWeb3 w → (k : ℕ) → k < 256 ^ 32 → Reads (read_key w) (le_bytes 32 k) k
unfolding read_key
read_key-Reads w legal k h = record {
  at = λ left.
      let size = length-le_bytes 32 k in
      rw
        (
          take_prefix 32 (le_bytes 32 k) left size,
          drop_prefix 32 (le_bytes 32 k) left size,
          legal.key_of_bytes k h,
        )
        refl;
}

-- The bytes of a list of keys.
abbrev pub keys_bytes : List Pubkey → List ℕ
keys_bytes [] = []
keys_bytes (k ∷ ks) = le_bytes 32 k ++ keys_bytes ks

abbrev pub AreKeys : List Pubkey → Type 0
AreKeys [] = Unit
AreKeys (k ∷ ks) = (k < 256 ^ 32) × AreKeys ks

pub read_keys-Reads :
    (w : Web3)
    → IsWeb3 w
    → (n : ℕ) (keys : List Pubkey) → length keys ≡ n
    → AreKeys keys
    → Reads (read_keys w n) (keys_bytes keys) keys
unfolding read_keys
read_keys-Reads w legal zero [] e h = Reads-pure []
read_keys-Reads w legal zero (k ∷ ks) e h = absurd (omega arith)
read_keys-Reads w legal (suc n) [] e h = absurd (omega arith)
read_keys-Reads w legal (suc n) (k ∷ ks) e (h, hs) =
    Reads-bind (read_key w) (λ key. read_keys w n >>= λ keys. pure (key ∷ keys))
      (read_key-Reads w legal k h)
      (Reads-map (read_keys w n) (λ keys. k ∷ keys) (read_keys-Reads w legal n ks (omega arith) hs))
