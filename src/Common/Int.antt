-- ===== src/Common/Int.antt =====
-- Signed numbers over the native ones, for `whio_off_t` and the signed codecs.
use Prim.Native.Nat.{ℕ, ◌-◌, ◌/◌, ◌%◌, ◌^◌, ◌<◌}
use whefs.Common.Tests.{ltb, if◌then◌else◌}

-- `negsuc n` is -(n + 1).
pub data ℤ : Type 0 where
  pos : ℕ → ℤ
  negsuc : ℕ → ℤ

-- An arithmetic shift to the right, `z >> k`: it rounds towards minus infinity.
abbrev pub sar : ℤ → ℕ → ℤ
sar (pos n) k = pos (n / 2 ^ k)
sar (negsuc n) k = negsuc (n / 2 ^ k)

-- `(unsigned char) z`, which is also `z & 0xff` in two's complement.
abbrev pub low_byte : ℤ → ℕ
low_byte (pos n) = n % 256
low_byte (negsuc n) = 255 - n % 256

-- The integer that a `w`-bit pattern stands for, `w` at least 1.
abbrev pub to_signed : ℕ → ℕ → ℤ
to_signed w n = if ltb n (2 ^ (w - 1)) then pos n else negsuc (2 ^ w - 1 - n)

-- The values of a signed type of `w` bits.
abbrev pub IsSigned : ℕ → ℤ → Type 0
IsSigned w (pos n) = n < 2 ^ (w - 1)
IsSigned w (negsuc n) = n < 2 ^ (w - 1)
