-- ===== src/Number/Bytes/Exponent.antt =====
-- The exponent byte, written and read.
use alpha_odpi.Prelude.{ℕ, ◌<◌, ◌≡◌, Bool, true, false, arith}
use alpha_odpi.Prelude.Int.{ℤ, pos, negsuc, ◌+ℤ◌, ◌-ℤ◌, ◌≤ℤ◌}
use alpha_odpi.Number.Encode.{is_odd, exponent_byte}
use alpha_odpi.Number.Decode.{exponent_negative, exponent_point}

-- What is read from the byte of a sign and an even place of the point is that sign and that place.
pub record IsExponent (negative : Bool) (point : ℤ) (byte : ℕ) : Type 0 where
  pub is_byte : byte < 256
  pub sign : exponent_negative byte ≡ negative
  pub place : exponent_point byte ≡ point

pub exponent_byte-IsExponent :
    (negative : Bool) (point : ℤ)
    → is_odd point ≡ false
    → negsuc 127 ≤ℤ point
    → point ≤ℤ pos 126
    → IsExponent negative point (exponent_byte negative point)
unfolding exponent_byte exponent_point ◌+ℤ◌ ◌-ℤ◌
exponent_byte-IsExponent true (pos n) e l u = ground arith
exponent_byte-IsExponent true (negsuc n) e l u = ground arith
exponent_byte-IsExponent false (pos n) e l u = ground arith
exponent_byte-IsExponent false (negsuc n) e l u = ground arith
