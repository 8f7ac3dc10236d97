-- ===== src/Number/Tests.antt =====
-- Runs of the four functions on small inputs, and the theorems at concrete numbers.
use Prim.Native.String.{String}
use Prim.Native.Char.{code}
use alpha_odpi.Prelude.{
  zero, suc, ◌+◌, ◌<◌, ◌≤◌, ◌++◌, arith, replicate, inr, ℕ, ◌≡◌, refl, List, [], ◌∷◌, true, false,
  length,
}
use alpha_odpi.Prelude.Int.{pos, ◌+ℤ◌, ◌-ℤ◌}
use alpha_odpi.Error.{Ensures, ok, err, dpi, number_no_repr}
use alpha_odpi.Number.Digits.{Decimal, IsNormal, AreDigits, oci_number_size}
use alpha_odpi.Number.Scan.{parse_number_string, single_byte, utf16_little}
use alpha_odpi.Number.Scan.Normal.{IsParsed, parse_number_string-IsParsed}
use alpha_odpi.Number.Codec.{
  PrintedBack, parse_number_string-chars, from_oracle_number_as_text-encode,
}
use alpha_odpi.Number.Bytes.RoundTrip.{decode-encode}
use alpha_odpi.Number.Bytes.Size.{encode-fits, encode-overflows}
use alpha_odpi.Number.Text.Length.{length-chars}
use alpha_odpi.Number.Encode.{encode, oracle_bytes, to_oracle_number_from_text}
use alpha_odpi.Number.Decode.{parse_oracle_number, exponent_point, read_digits}
use alpha_odpi.Number.Text.{within, past_end, chars, num_chars, from_oracle_number_as_text}

abbrev codes : String → List ℕ
codes String.[] = []
codes (String.◌∷◌ c s) = code c ∷ codes s

parse_fraction :
    parse_number_string single_byte (codes "-0.0120e+2")
    ≡ ok (record { is_negative = true; decimal_point_index = pos 1; digits = 1 ∷ 2 ∷ [] })
unfolding parse_number_string ◌+ℤ◌ ◌-ℤ◌
parse_fraction = refl

parse_utf16 :
    parse_number_string utf16_little (b'7' ∷ 0 ∷ b'0' ∷ 0 ∷ [])
    ≡ ok (record { is_negative = false; decimal_point_index = pos 2; digits = 7 ∷ [] })
unfolding parse_number_string
parse_utf16 = refl

parse_lone_sign :
    parse_number_string single_byte (codes "-")
    ≡ ok (record { is_negative = true; decimal_point_index = pos 0; digits = [] })
unfolding parse_number_string
parse_lone_sign = refl

parse_tiny : parse_number_string single_byte (codes "1e-200") ≡ err (dpi number_no_repr)
unfolding parse_number_string ◌-ℤ◌
parse_tiny = refl

encode_negative :
    to_oracle_number_from_text single_byte (codes "-123.4") ≡ ok (5 ∷ 61 ∷ 100 ∷ 78 ∷ 61 ∷ 102 ∷ [])
unfolding to_oracle_number_from_text parse_number_string encode oracle_bytes ◌+ℤ◌
encode_negative = refl

print_negative :
    from_oracle_number_as_text false 20 (5 ∷ 61 ∷ 100 ∷ 78 ∷ 61 ∷ 102 ∷ [])
    ≡ ok (
        within (record {
          length_in_bytes = 6;
          written = b'-' ∷ b'1' ∷ b'2' ∷ b'3' ∷ b'.' ∷ b'4' ∷ 0 ∷ [];
        }))
unfolding from_oracle_number_as_text parse_oracle_number exponent_point read_digits chars num_chars
print_negative = refl

-- In a buffer of six bytes the terminating zero is written behind the end.
print_past_end :
    from_oracle_number_as_text false 6 (5 ∷ 61 ∷ 100 ∷ 78 ∷ 61 ∷ 102 ∷ [])
    ≡ ok (
        past_end (record {
          length_in_bytes = 6;
          written = b'-' ∷ b'1' ∷ b'2' ∷ b'3' ∷ b'.' ∷ b'4' ∷ 0 ∷ [];
        }))
unfolding from_oracle_number_as_text parse_oracle_number exponent_point read_digits chars num_chars
print_past_end = refl

-- The number -123.4.
abbrev negative_number : Decimal
negative_number = record {
  is_negative = true;
  decimal_point_index = pos 3;
  digits = 1 ∷ 2 ∷ 3 ∷ 4 ∷ [];
}

negative_number-IsNormal : IsNormal negative_number
negative_number-IsNormal = record {
  decimal = (omega arith, (omega arith, (omega arith, (omega arith, tt))));
  leading = omega arith;
  trailing = omega arith;
  precise = omega arith;
  lower = ground arith;
  upper = ground arith;
}

-- Forty nines, the first of them in front of the point.
abbrev longest_number : Decimal
longest_number = record {
  is_negative = false;
  decimal_point_index = pos 1;
  digits = replicate 40 9;
}

replicate-AreDigits : (n d : ℕ) → d < 10 → AreDigits (replicate n d)
replicate-AreDigits zero d h = tt
replicate-AreDigits (suc n) d h = (h, replicate-AreDigits n d h)

longest_number-IsNormal : IsNormal longest_number
longest_number-IsNormal = record {
  decimal = replicate-AreDigits 40 9 (omega arith);
  leading = omega arith;
  trailing = omega arith;
  precise = omega arith;
  lower = ground arith;
  upper = ground arith;
}

parse_number_string-IsParsed_example :
    Ensures IsParsed (parse_number_string single_byte (codes "-0.0120e+2"))
parse_number_string-IsParsed_example = parse_number_string-IsParsed single_byte (codes "-0.0120e+2")

parse_number_string-chars_example :
    parse_number_string single_byte (chars negative_number) ≡ ok negative_number
parse_number_string-chars_example =
    parse_number_string-chars negative_number negative_number-IsNormal

from_oracle_number_as_text-encode_example :
    PrintedBack negative_number 173
      (from_oracle_number_as_text false 173 (encode negative_number ++ (7 ∷ [])))
from_oracle_number_as_text-encode_example =
    from_oracle_number_as_text-encode negative_number 173 (7 ∷ []) negative_number-IsNormal
      (inr (omega arith)) (omega arith)

decode-encode_example :
    parse_oracle_number (encode negative_number ++ (7 ∷ [])) ≡ ok negative_number
decode-encode_example =
    decode-encode negative_number (7 ∷ []) negative_number-IsNormal (inr (omega arith))

encode-fits_example : length (encode negative_number) ≤ oci_number_size
encode-fits_example = encode-fits negative_number negative_number-IsNormal (inr (omega arith))

encode-overflows_example : length (encode longest_number) ≡ oci_number_size + 1
encode-overflows_example = encode-overflows longest_number longest_number-IsNormal refl refl

length-chars_example : length (chars negative_number) ≡ num_chars negative_number
length-chars_example = length-chars negative_number
