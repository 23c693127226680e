-- ===== src/Prelude/Words.antt =====
-- Checked arithmetic on machine integers: `none` is an overflow.
use Prim.Native.Nat.{ℕ, ◌+◌, ◌-◌, ◌*◌, ◌/◌, ◌^◌}
use mathlib.Core.Bool.{Bool, ◌&&◌}
use mathlib.Core.Option.{Option, none, some}
use batch_it_protocol.Prelude.Tests.{ltb, leb, ◌==◌, if◌then◌else◌}
use batch_it_protocol.Prelude.Int.{ℤ, pos, negsuc, leb_ℤ, ◌+ℤ◌}

abbrev pub u8_mod : ℕ
u8_mod = 2 ^ 8

abbrev pub u32_mod : ℕ
u32_mod = 2 ^ 32

abbrev pub u64_mod : ℕ
u64_mod = 2 ^ 64

abbrev pub u128_mod : ℕ
u128_mod = 2 ^ 128

abbrev pub i64_max : ℕ
i64_max = 2 ^ 63 - 1

-- `a.checked_add(b)` and so on, at the width whose modulus is given.
abbrev pub checked_add : ℕ → ℕ → ℕ → Option ℕ
checked_add m a b = if ltb (a + b) m then some (a + b) else none

abbrev pub checked_sub : ℕ → ℕ → Option ℕ
checked_sub a b = if leb b a then some (a - b) else none

abbrev pub checked_mul : ℕ → ℕ → ℕ → Option ℕ
checked_mul m a b = if ltb (a * b) m then some (a * b) else none

abbrev pub checked_div : ℕ → ℕ → Option ℕ
checked_div a b = if b == 0 then none else some (a / b)

-- An `i64`: -2^63 is `negsuc i64_max`.
abbrev pub is_i64 : ℤ → Bool
is_i64 a = leb_ℤ (negsuc i64_max) a && leb_ℤ a (pos i64_max)

abbrev pub checked_add_i64 : ℤ → ℤ → Option ℤ
checked_add_i64 a b = if is_i64 (a +ℤ b) then some (a +ℤ b) else none
