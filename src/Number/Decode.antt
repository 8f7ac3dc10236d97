-- ===== src/Number/Decode.antt =====
-- `dpiUtils__parseOracleNumber` of src/dpiUtils.c.
use alpha_odpi.Prelude.{
  ℕ, ◌+◌, ◌-◌, ◌*◌, ◌/◌, ◌%◌, Bool, true, false, ◌&&◌, List, [], ◌∷◌, ◌++◌, ltb, ◌==◌,
  if◌then◌else◌, length, get_or, take, drop,
}
use alpha_odpi.Prelude.Int.{ℤ, pos, negsuc, ◌+ℤ◌, ◌-ℤ◌}
use alpha_odpi.Error.{Result, ok, ◌>>◌, fail_if, invalid_oci_number}
use alpha_odpi.Number.Digits.{Decimal, is_empty}

-- The value of an `int8_t` with these bits.
abbrev pub int8 : ℕ → ℤ
int8 b = if ltb b 128 then pos b else negsuc (255 - b)

-- The bit 0x80 of the exponent byte is set for a positive number.
abbrev pub exponent_negative : ℕ → Bool
exponent_negative b = ltb b 128

-- `ociExponent * 2 + 2`, with `ociExponent` an `int8_t` from which 193 is taken.
unfoldable pub exponent_point : ℕ → ℤ
unfolding ◌+ℤ◌
exponent_point b =
    let e = if exponent_negative b then 255 - b else b in
    let o = int8 ((e + 256 - 193) % 256) in o +ℤ o +ℤ pos 2

-- `*numDigits`, `*decimalPointIndex` and the digits written so far.
pub record Progress : Type 0 where
  pub num_digits : ℕ
  pub decimal_point_index : ℤ
  pub digits : List ℕ

unfoldable pub base_100 : Bool → ℕ → ℕ
base_100 negative byte = if negative then (101 + 256 - byte) % 256 else (byte + 255) % 256

-- A leading zero is ignored; a ten comes from a byte out of range, and gives two digits.
unfoldable pub high_digit : Bool → ℕ → Progress → Progress
unfolding ◌+ℤ◌ ◌-ℤ◌
high_digit first digit p =
    if digit == 0 && first
    then record p {
      num_digits = p.num_digits - 1;
      decimal_point_index = p.decimal_point_index -ℤ pos 1;
    }
    else if digit == 10
    then record {
      num_digits = p.num_digits + 1;
      decimal_point_index = p.decimal_point_index +ℤ pos 1;
      digits = p.digits ++ (1 ∷ 0 ∷ []);
    }
    else record p { digits = p.digits ++ (digit ∷ []) }

-- A trailing zero is ignored.
unfoldable pub low_digit : Bool → ℕ → Progress → Progress
low_digit last digit p =
    if digit == 0 && last
    then record p { num_digits = p.num_digits - 1 }
    else record p { digits = p.digits ++ (digit ∷ []) }

-- The loop over the mantissa; the flag is `i == 0`.
unfoldable pub read_mantissa : Bool → Bool → List ℕ → Progress → Progress
read_mantissa negative first [] p = p
read_mantissa negative first (byte ∷ bytes) p =
    let b = base_100 negative byte in
    read_mantissa negative false bytes
      (low_digit (is_empty bytes) (b % 10) (high_digit first (b / 10) p))

-- The trailing byte 102 of a negative number is no digit pair.
abbrev pub drop_sentinel : Bool → List ℕ → List ℕ
drop_sentinel negative [] = []
drop_sentinel negative (b ∷ []) = if negative && b == 102 then [] else b ∷ []
drop_sentinel negative (b ∷ c ∷ bs) = b ∷ drop_sentinel negative (c ∷ bs)

unfoldable pub read_digits : Bool → ℤ → List ℕ → Decimal
unfolding read_mantissa base_100 high_digit low_digit
read_digits negative point bytes =
    let p =
      read_mantissa negative true bytes
        (record { num_digits = length bytes * 2; decimal_point_index = point; digits = [] }) in
    record {
      is_negative = negative;
      decimal_point_index = p.decimal_point_index;
      digits = take p.num_digits p.digits;
    }

-- A mantissa of no bytes: zero, or -1e126.
abbrev pub no_mantissa : Bool → Decimal
no_mantissa negative =
    if negative
    then record { is_negative = negative; decimal_point_index = pos 127; digits = 1 ∷ [] }
    else record { is_negative = negative; decimal_point_index = pos 1; digits = 0 ∷ [] }

abbrev pub mantissa_length : List ℕ → ℕ
mantissa_length value = (get_or value 0 0 + 255) % 256

-- `value` is the OCINumber, of 22 bytes: the mantissa, of 20 at most, lies within it.
unfoldable pub parse_oracle_number : List ℕ → Result Decimal
parse_oracle_number value = do
  fail_if (ltb 20 (mantissa_length value)) invalid_oci_number
  let e = get_or value 1 0
  let bytes = take (mantissa_length value) (drop 2 value)
  ok (
      if mantissa_length value == 0
      then no_mantissa (exponent_negative e)
      else read_digits (exponent_negative e) (exponent_point e)
          (drop_sentinel (exponent_negative e) bytes))
