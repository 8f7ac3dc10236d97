-- ===== src/Number/Codec.antt =====
-- Whole conversions: `dpiDataBuffer__toOracleNumberFromText` and
-- `dpiDataBuffer__fromOracleNumberAsText` of src/dpiData.c.
use alpha_odpi.Prelude.{
  ℕ, ◌+◌, ◌*◌, ◌≤◌, ◌<◌, ◌≡◌, true, false, List, [], ◌∷◌, ◌++◌, length, arith, ◌==◌, ltb, leb, refl,
  subst,
}
use alpha_odpi.Error.{Result, ok}
use alpha_odpi.Number.Digits.{Decimal, IsNormal, number_as_text_chars}
use alpha_odpi.Number.Scan.{single_byte, parse_number_string}
use alpha_odpi.Number.Encode.{encode, to_oracle_number_from_text}
use alpha_odpi.Number.Text.{Converted, within, chars, num_chars, from_oracle_number_as_text}
use alpha_odpi.Number.Text.Length.{length-chars, num_chars-lt}
use alpha_odpi.Number.Parse.{parse_text-chars}
use alpha_odpi.Number.Bytes.RoundTrip.{decode-encode, IsAlignable}

num_chars_pos : (d : Decimal) → IsNormal d → 0 < num_chars d
unfolding num_chars
num_chars_pos d v = ground arith

-- The text that is printed for a normal number is parsed, checks of its length included, into
-- exactly that number.
pub parse_number_string-chars :
    (d : Decimal) → IsNormal d → parse_number_string single_byte (chars d) ≡ ok d
unfolding parse_number_string
parse_number_string-chars d v =
    let some_chars : (length (chars d) == 0) ≡ false =
      ground (arith, length-chars d, num_chars_pos d v) in
    let short : ltb number_as_text_chars (length (chars d)) ≡ false =
      ground (arith, length-chars d, num_chars-lt d v) in
    rw (some_chars, short) (parse_text-chars d v)

-- A text that lies within the buffer, its terminating zero included, and is read as the number and stored
-- in its bytes.
pub data PrintedBack (d : Decimal) (capacity : ℕ) : Result Converted → Type 0 where
  printed :
      (text : List ℕ)
      → length text < capacity
      → parse_number_string single_byte text ≡ ok d
      → to_oracle_number_from_text single_byte text ≡ ok (encode d)
      → PrintedBack d capacity
          (ok (within (record { length_in_bytes = length text; written = text ++ (0 ∷ []) })))

-- The bytes that are written for a normal number, unless it has 40 digits and an odd place of the
-- point, are converted, in a single-byte character set and into a buffer of at least 173 bytes,
-- into a text that is shorter than the buffer, so that the terminating zero stays within it. That
-- text is parsed back into the same number, and storing it as a number writes the same bytes.
pub from_oracle_number_as_text-encode :
    (d : Decimal) (capacity : ℕ) (rest : List ℕ)
    → IsNormal d
    → IsAlignable d
    → number_as_text_chars ≤ capacity
    → PrintedBack d capacity (from_oracle_number_as_text false capacity (encode d ++ rest))
unfolding from_oracle_number_as_text to_oracle_number_from_text
from_oracle_number_as_text-encode d capacity rest v a h =
    let short : num_chars d < number_as_text_chars = num_chars-lt d v in
    let enough : ltb capacity (num_chars d * 1) ≡ false = ground arith in
    let room : leb (num_chars d * 1 + 1) capacity ≡ true = ground arith in
    let size : length (chars d) ≡ num_chars d * 1 = omega (arith, length-chars d) in
    rw (decode-encode d rest v a, enough, room)
      (subst
        (λ n.
          PrintedBack d capacity
            (ok (within (record { length_in_bytes = n; written = chars d ++ (0 ∷ []) }))))
        size
        (printed (chars d) (omega arith) (parse_number_string-chars d v)
          (rw (parse_number_string-chars d v) refl)))
