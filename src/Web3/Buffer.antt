-- ===== src/Web3/Buffer.antt =====
-- Node's `Buffer`, as the list of its bytes. A write of a number that does not fit, or past the end,
-- throws a RangeError.
use batch_it_protocol.Prelude.{
  ◌>>=◌, ◌<◌, ◌∙◌, sym, lt→ltb, ≤→leb, true, false, zero, suc, List, Result, [], arith, ap, drop,
  err, if◌then◌else◌, leb, length, length-append, ltb, ok, refl, replicate, take, ℕ, ◌+◌, ◌++◌, ◌-◌,
  ◌≡◌, ◌≤◌, ◌∷◌,
}
use mathlib.Core.List.{append_assoc}
use batch_it_protocol.Prelude.Bytes.{le_bytes, length-le_bytes}
use batch_it_protocol.Prelude.Int.{ℤ, negsuc, pos}
use batch_it_protocol.Prelude.Words.{u32_mod, u64_mod}

pub data RangeError : Type 0 where
  out_of_range : RangeError

-- `Buffer.alloc(n)`
abbrev pub alloc : ℕ → List ℕ
alloc n = replicate n 0

-- The bytes of a buffer from `o` on replaced.
abbrev pub put_at : ℕ → List ℕ → List ℕ → List ℕ
put_at o bytes buffer = take o buffer ++ (bytes ++ drop (o + length bytes) buffer)

-- `source.copy(buffer, o)`: what does not fit is left out.
abbrev pub copy_to : ℕ → List ℕ → List ℕ → List ℕ
copy_to o source buffer = put_at o (take (length buffer - o) source) buffer

abbrev write_at : ℕ → List ℕ → List ℕ → Result RangeError (List ℕ)
write_at o bytes buffer =
    if leb (o + length bytes) (length buffer) then ok (put_at o bytes buffer) else err out_of_range

-- `buffer.writeBigUInt64LE(v, o)`
unfoldable pub write_u64 : ℤ → ℕ → List ℕ → Result RangeError (List ℕ)
write_u64 (pos v) o buffer =
    if ltb v u64_mod then write_at o (le_bytes 8 v) buffer else err out_of_range
write_u64 (negsuc _) o buffer = err out_of_range

-- `buffer.writeUInt32LE(v, o)`, for a `v` that is not negative
unfoldable pub write_u32 : ℕ → ℕ → List ℕ → Result RangeError (List ℕ)
write_u32 v o buffer = if ltb v u32_mod then write_at o (le_bytes 4 v) buffer else err out_of_range

-- `buffer[o] = v`, for a byte `v`: a write past the end does nothing.
abbrev pub set_byte : ℕ → ℕ → List ℕ → List ℕ
set_byte o v buffer = if ltb o (length buffer) then put_at o (v ∷ []) buffer else buffer

pub take_all {ℓ} : {A : Type ℓ} (n : ℕ) (xs : List A) → length xs ≤ n → take n xs ≡ xs
take_all zero [] h = refl
take_all zero (x ∷ xs) h = absurd (omega arith)
take_all (suc n) [] h = refl
take_all (suc n) (x ∷ xs) h = ap (λ t. x ∷ t) (take_all n xs (omega arith))

pub take_prefix {ℓ} : {A : Type ℓ} (n : ℕ) (xs ys : List A) → length xs ≡ n → take n (xs ++ ys) ≡ xs
take_prefix zero [] ys h = refl
take_prefix zero (x ∷ xs) ys h = absurd (omega arith)
take_prefix (suc n) [] ys h = absurd (omega arith)
take_prefix (suc n) (x ∷ xs) ys h = ap (λ t. x ∷ t) (take_prefix n xs ys (omega arith))

pub drop_prefix {ℓ} : {A : Type ℓ} (n : ℕ) (xs ys : List A) → length xs ≡ n → drop n (xs ++ ys) ≡ ys
drop_prefix zero [] ys h = refl
drop_prefix zero (x ∷ xs) ys h = absurd (omega arith)
drop_prefix (suc n) [] ys h = absurd (omega arith)
drop_prefix (suc n) (x ∷ xs) ys h = drop_prefix n xs ys (omega arith)

-- What is put over `old`, between a prefix and a rest, replaces it.
pub put_at-middle :
    (o : ℕ) (p bytes old rest : List ℕ)
    → length p ≡ o
    → length old ≡ length bytes
    → put_at o bytes (p ++ (old ++ rest)) ≡ p ++ (bytes ++ rest)
put_at-middle o p bytes old rest hp ho =
    let kept = take_prefix o p (old ++ rest) hp in
    let size : length (p ++ old) ≡ o + length bytes = omega (arith, length-append p old) in
    let left : drop (o + length bytes) (p ++ (old ++ rest)) ≡ rest =
      rw (← append_assoc p old rest) (drop_prefix (o + length bytes) (p ++ old) rest size) in
    rw (kept, left) refl

-- A 64-bit number written over 8 bytes between a prefix and a rest.
pub write_u64-middle :
    (v o : ℕ) (p old rest : List ℕ)
    → v < u64_mod
    → length p ≡ o
    → length old ≡ 8
    → write_u64 (pos v) o (p ++ (old ++ rest)) ≡ ok (p ++ (le_bytes 8 v ++ rest))
unfolding write_u64
write_u64-middle v o p old rest hv hp ho =
    let size = length-le_bytes 8 v in
    let room : leb (o + length (le_bytes 8 v)) (length (p ++ (old ++ rest))) ≡ true =
      ≤→leb _ _ (omega (arith, size, length-append p (old ++ rest), length-append old rest)) in
    rw (lt→ltb v u64_mod hv, room, put_at-middle o p (le_bytes 8 v) old rest hp (ho ∙ sym size))
      refl

-- What is written at 0 over 8 bytes.
pub write_u64-alloc :
    (v : ℕ) → v < u64_mod → write_u64 (pos v) 0 (alloc 8) ≡ ok (le_bytes 8 v ++ [])
write_u64-alloc v hv = write_u64-middle v 0 [] (alloc 8) [] hv refl refl

pub write_u32-alloc : (v : ℕ) → v < u32_mod → write_u32 v 0 (alloc 4) ≡ ok (le_bytes 4 v ++ [])
unfolding write_u32
write_u32-alloc v hv =
    let size = length-le_bytes 4 v in
    let room : leb (0 + length (le_bytes 4 v)) 4 ≡ true = ≤→leb _ _ (omega (arith, size)) in
    rw (lt→ltb v u32_mod hv, room, put_at-middle 0 [] (le_bytes 4 v) (alloc 4) [] refl (sym size))
      refl

-- A number that does not fit 64 bits is refused, wherever it is to be written.
pub write_u64-refused :
    (a : ℤ) (o : ℕ) (buffer : List ℕ)
    → ((v : ℕ) → a ≡ pos v → u64_mod ≤ v)
    → write_u64 a o buffer ≡ err out_of_range
unfolding write_u64
write_u64-refused (pos v) o buffer h =
    let big = h v refl in let no : ltb v u64_mod ≡ false = ground arith in rw no refl
write_u64-refused (negsuc n) o buffer h = refl

-- A byte written over one between a prefix and a rest.
pub set_byte-middle :
    (o b old : ℕ) (p rest : List ℕ)
    → length p ≡ o
    → set_byte o b (p ++ (old ∷ rest)) ≡ p ++ (b ∷ rest)
set_byte-middle o b old p rest h =
    let room : ltb o (length (p ++ (old ∷ rest))) ≡ true =
      lt→ltb _ _ (omega (arith, h, length-append p (old ∷ rest))) in
    rw (room, put_at-middle o p (b ∷ []) (old ∷ []) rest h refl) refl

-- What cannot be written leaves the rest undone.
pub bind-refused {ℓ κ} :
    {A : Type ℓ} {B : Type κ} (m : Result RangeError A) (f : A → Result RangeError B)
    → ((a : A) → f a ≡ err out_of_range)
    → m >>= f ≡ err out_of_range
bind-refused (ok a) f h = h a
bind-refused (err out_of_range) f h = refl

pub length-take {ℓ} : {A : Type ℓ} (n : ℕ) (xs : List A) → n ≤ length xs → length (take n xs) ≡ n
length-take zero xs h = refl
length-take (suc n) [] h = absurd (omega arith)
length-take (suc n) (x ∷ xs) h = omega (arith, length-take n xs (omega arith))

-- A discriminator copied to the front of 16 bytes, and a number written behind it.
pub write_u64-behind :
    (d : List ℕ) (v : ℕ)
    → length d ≡ 8
    → v < u64_mod
    → write_u64 (pos v) 8 (copy_to 0 d (alloc 16)) ≡ ok (d ++ (le_bytes 8 v ++ []))
write_u64-behind d v e h =
    let copied : copy_to 0 d (alloc 16) ≡ d ++ (alloc 8 ++ []) =
      rw (take_all 16 d (omega (arith, e)))
        (put_at-middle 0 [] d (alloc 8) (alloc 8) refl (sym e)) in
    rw copied (write_u64-middle v 8 d (alloc 8) [] h e refl)
