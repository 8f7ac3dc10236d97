-- ===== src/Number/Text/Length.antt =====
-- `numBytes` of `dpiDataBuffer__fromOracleNumberAsText`, src/dpiData.c.
use alpha_odpi.Prelude.{
  ℕ, ◌+◌, ◌<◌, ◌≡◌, ◌&&◌, List, [], ◌∷◌, ltb, leb, if◌then◌else◌, length, length-append,
  length-replicate, arith, ◌++◌, ◌-◌, zero, suc, refl,
}
use alpha_odpi.Prelude.Int.{ℤ, pos, negsuc, pos_part, neg_part}
use alpha_odpi.Number.Digits.{Decimal, IsNormal, number_as_text_chars}
use alpha_odpi.Number.Text.{
  sign_chars, leading_chars, digit_chars, trailing_chars, chars, num_chars,
}

-- One for the point, if the loop over `n` digits from index `i` on comes to it.
abbrev point_in : ℤ → ℕ → ℕ → ℕ
point_in point i n =
    if ltb 0 (pos_part point) && (leb i (pos_part point) && ltb (pos_part point) (i + n))
    then 1
    else 0

length-digit_chars :
    (point : ℤ) (i : ℕ) (ds : List ℕ)
    → length (digit_chars point i ds) ≡ length ds + point_in point i (length ds)
unfolding digit_chars
length-digit_chars point i [] = ground arith
length-digit_chars point i (d ∷ ds) = ground (arith, length-digit_chars point (i + 1) ds)

length-leading_chars :
    (point : ℤ)
    → length (leading_chars point) ≡ (if ltb 0 (pos_part point) then 0 else neg_part point + 2)
length-leading_chars (pos zero) = refl
length-leading_chars (pos (suc n)) = ground arith
length-leading_chars (negsuc n) = ground (arith, length-replicate {A = ℕ} n b'0')

length-chars_parts :
    (d : Decimal)
    → length (chars d)
      ≡ length (sign_chars d.is_negative)
        + length (leading_chars d.decimal_point_index)
        + length (digit_chars d.decimal_point_index 0 d.digits)
        + length (trailing_chars d.decimal_point_index (length d.digits))
unfolding chars
length-chars_parts d = omega (
  arith,
  length-append (sign_chars d.is_negative) (
      leading_chars d.decimal_point_index
      ++ (digit_chars d.decimal_point_index 0 d.digits
          ++ trailing_chars d.decimal_point_index (length d.digits))),
  length-append (leading_chars d.decimal_point_index) (
      digit_chars d.decimal_point_index 0 d.digits
      ++ trailing_chars d.decimal_point_index (length d.digits)),
  length-append (digit_chars d.decimal_point_index 0 d.digits)
      (trailing_chars d.decimal_point_index (length d.digits)),
)

-- The space that is computed for a text is the number of the characters that are then written, for
-- every number.
pub length-chars : (d : Decimal) → length (chars d) ≡ num_chars d
unfolding num_chars
length-chars d = ground (
  arith,
  length-chars_parts d,
  length-leading_chars d.decimal_point_index,
  length-digit_chars d.decimal_point_index 0 d.digits,
  length-replicate {A = ℕ} (pos_part d.decimal_point_index - length d.digits) b'0',
)

-- The text of a normal number is shorter than the 173 characters that a text buffer for a number
-- has.
pub num_chars-lt : (d : Decimal) → IsNormal d → num_chars d < number_as_text_chars
unfolding num_chars
num_chars-lt d v = ground arith
