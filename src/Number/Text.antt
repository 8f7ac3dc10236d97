-- ===== src/Number/Text.antt =====
-- `dpiDataBuffer__fromOracleNumberAsText` of src/dpiData.c. The two halves of the source, for
-- UTF-16 and for single bytes, write the same characters: the model writes them once, as the
-- values of the units.
pub mod Length
use alpha_odpi.Prelude.{
  ℕ, zero, suc, ◌+◌, ◌-◌, ◌*◌, ◌%◌, Bool, true, false, ◌&&◌, List, [], ◌∷◌, ◌++◌, ltb, leb, ◌==◌,
  if◌then◌else◌, length, replicate,
}
use alpha_odpi.Prelude.Int.{ℤ, pos, negsuc, pos_part, neg_part, ltb_ℤ}
use alpha_odpi.Error.{Result, ok, err, dpi, ◌>>=◌, ◌>>◌, fail_if, buffer_size_too_small}
use alpha_odpi.Number.Digits.{Decimal}
use alpha_odpi.Number.Decode.{parse_oracle_number, exponent_point, read_digits}

abbrev pub sign_chars : Bool → List ℕ
sign_chars true = b'-' ∷ []
sign_chars false = []

-- With the index of the point 0 or less: "0." and the zeroes behind the point.
abbrev pub leading_chars : ℤ → List ℕ
leading_chars (pos zero) = b'0' ∷ b'.' ∷ []
leading_chars (pos (suc n)) = []
leading_chars (negsuc n) = b'0' ∷ b'.' ∷ replicate (suc n) b'0'

-- The loop over the digits from index `i` on. A digit is at most 25, so '0' + digit is a byte.
unfoldable pub digit_chars : ℤ → ℕ → List ℕ → List ℕ
digit_chars point i [] = []
digit_chars point i (d ∷ ds) =
    let rest = (b'0' + d) ∷ digit_chars point (i + 1) ds in
    if ltb 0 i && i == pos_part point then b'.' ∷ rest else rest

-- The zeroes up to the point, where it lies behind the digits.
abbrev pub trailing_chars : ℤ → ℕ → List ℕ
trailing_chars point n = replicate (pos_part point - n) b'0'

unfoldable pub chars : Decimal → List ℕ
unfolding digit_chars
chars d =
    sign_chars d.is_negative
    ++ (leading_chars d.decimal_point_index
        ++ (digit_chars d.decimal_point_index 0 d.digits
            ++ trailing_chars d.decimal_point_index (length d.digits)))

-- `numBytes`, before it is doubled for UTF-16.
unfoldable pub num_chars : Decimal → ℕ
num_chars d =
    let n = length d.digits + length (sign_chars d.is_negative) in
    if ltb_ℤ (pos 0) d.decimal_point_index
    then if ltb (pos_part d.decimal_point_index) (length d.digits)
      then n + 1
      else n + (pos_part d.decimal_point_index - length d.digits)
    else n + (neg_part d.decimal_point_index + 2)

-- What the call leaves in `data->asBytes`: the length in bytes, and the units that it writes, the
-- terminating zero last.
pub record TextBytes : Type 0 where
  pub length_in_bytes : ℕ
  pub written : List ℕ

-- Whether the units lie within the buffer, or the terminating zero behind its end: the check of the size
-- does not count it.
pub data Converted : Type 0 where
  within past_end : TextBytes → Converted

abbrev pub unit_bytes : Bool → ℕ
unit_bytes utf16 = if utf16 then 2 else 1

abbrev pub converted : ℕ → ℕ → TextBytes → Converted
converted capacity unit t = if leb (t.length_in_bytes + unit) capacity then within t else past_end t

unfoldable pub from_oracle_number_as_text : Bool → ℕ → List ℕ → Result Converted
from_oracle_number_as_text utf16 capacity value = do
  d ← parse_oracle_number value
  let num_bytes = num_chars d * unit_bytes utf16
  fail_if (ltb capacity num_bytes) buffer_size_too_small
  ok (
      converted capacity (unit_bytes utf16)
        (record { length_in_bytes = num_bytes; written = chars d ++ (0 ∷ []) }))
