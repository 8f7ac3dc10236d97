-- ===== src/Number/Scan.antt =====
-- `dpiUtils__parseNumberString` of src/dpiUtils.c: a loop for each `while`, over the characters
-- from `value` to `endValue`. Characters are bytes; one above 127 is no digit, as in the source,
-- where it is a negative `char`.
pub mod Runs
pub mod Strip
pub mod Normal
use alpha_odpi.Prelude.{
  ℕ, ◌+◌, ◌-◌, ◌*◌, ◌/◌, Bool, true, false, not, ◌&&◌, ◌||◌, List, [], ◌∷◌, ◌++◌, reverse, ltb, leb,
  ◌==◌, if◌then◌else◌, length,
}
use alpha_odpi.Prelude.Int.{ℤ, pos, negsuc, ◌+ℤ◌, ◌-ℤ◌, ltb_ℤ}
use alpha_odpi.Error.{
  Result, ok, err, dpi, ◌>>=◌, ◌>>◌, fail_if, invalid_number, not_supported, number_no_repr,
  number_string_too_long,
}
use alpha_odpi.Number.Digits.{Decimal, number_as_text_chars, number_max_digits, is_empty}

abbrev pub is_digit : ℕ → Bool
is_digit c = leb b'0' c && leb c b'9'

abbrev pub is_exponent : ℕ → Bool
is_exponent c = c == b'e' || c == b'E'

-- A leading zero is not stored.
abbrev pub skips : List ℕ → ℕ → Bool
skips ds d = d == 0 && is_empty ds

abbrev pub add_digit : List ℕ → ℕ → List ℕ
add_digit ds d = if skips ds d then ds else ds ++ (d ∷ [])

-- The digits before the decimal point or the exponent, with the text that is left.
unfoldable pub scan_integer : List ℕ → List ℕ → Result (List ℕ × List ℕ)
scan_integer ds [] = ok (ds, [])
scan_integer ds (c ∷ cs) =
    if c == b'.' || is_exponent c
    then ok (ds, c ∷ cs)
    else if is_digit c
    then scan_integer (add_digit ds (c - b'0')) cs
    else err (dpi invalid_number)

-- The digits behind the point; a leading zero moves the point instead of being stored.
unfoldable pub scan_fraction : List ℕ → ℤ → List ℕ → Result (List ℕ × ℤ × List ℕ)
scan_fraction ds point [] = ok (ds, point, [])
scan_fraction ds point (c ∷ cs) =
    if is_exponent c
    then ok (ds, point, c ∷ cs)
    else if is_digit c
    then scan_fraction (add_digit ds (c - b'0'))
        (if skips ds (c - b'0') then point -ℤ pos 1 else point) cs
    else err (dpi invalid_number)

-- The block that runs if the next character is a point.
unfoldable pub fraction : List ℕ → List ℕ → Result (List ℕ × ℤ × List ℕ)
fraction ds [] = ok (ds, pos (length ds), [])
fraction ds (c ∷ cs) =
    if c == b'.' then scan_fraction ds (pos (length ds)) cs else ok (ds, pos (length ds), c ∷ cs)

-- `exponentDigits`, as values; at most three.
unfoldable pub scan_exponent : List ℕ → List ℕ → Result (List ℕ)
scan_exponent es [] = ok es
scan_exponent es (c ∷ cs) =
    if not (is_digit c)
    then err (dpi invalid_number)
    else if length es == 3
    then err (dpi not_supported)
    else scan_exponent (es ++ ((c - b'0') ∷ [])) cs

-- `strtol(exponentDigits, NULL, 10)`
abbrev pub digits_value : ℕ → List ℕ → ℕ
digits_value acc [] = acc
digits_value acc (e ∷ es) = digits_value (acc * 10 + e) es

unfoldable pub unsigned_exponent : Bool → ℤ → List ℕ → Result (ℤ × List ℕ)
unfolding scan_exponent
unsigned_exponent negative point cs = do
  es ← scan_exponent [] cs
  fail_if (is_empty es) invalid_number
  ok (if negative then point -ℤ pos (digits_value 0 es) else point +ℤ pos (digits_value 0 es), [])

unfoldable pub signed_exponent : ℤ → List ℕ → Result (ℤ × List ℕ)
unfolding unsigned_exponent
signed_exponent point [] = unsigned_exponent false point []
signed_exponent point (c ∷ cs) =
    if c == b'+' || c == b'-'
    then unsigned_exponent (c == b'-') point cs
    else unsigned_exponent false point (c ∷ cs)

-- The block that runs if the next character is an exponent indicator.
unfoldable pub exponent : ℤ → List ℕ → Result (ℤ × List ℕ)
unfolding signed_exponent
exponent point [] = ok (point, [])
exponent point (c ∷ cs) = if is_exponent c then signed_exponent point cs else ok (point, c ∷ cs)

unfoldable pub drop_zeroes : List ℕ → List ℕ
drop_zeroes [] = []
drop_zeroes (d ∷ ds) = if d == 0 then drop_zeroes ds else d ∷ ds

-- The loop below "strip trailing zeroes" walks back from the last digit.
unfoldable pub strip : List ℕ → List ℕ
unfolding drop_zeroes
strip ds = reverse (drop_zeroes (reverse ds))

abbrev pub no_repr : List ℕ → ℤ → Bool
no_repr ds point =
    ltb number_max_digits (length ds) || ltb_ℤ (pos 126) point || ltb_ℤ point (negsuc 128)

-- Everything behind the sign.
unfoldable pub parse_unsigned : Bool → List ℕ → Result Decimal
unfolding scan_integer fraction scan_fraction exponent strip
parse_unsigned negative text = do
  (ds, rest) ← scan_integer [] text
  (ds', point, rest') ← fraction ds rest
  (point', left) ← exponent point rest'
  fail_if (not (is_empty left)) invalid_number
  fail_if (no_repr (strip ds') point') number_no_repr
  ok (record { is_negative = negative; decimal_point_index = point'; digits = strip ds' })

unfoldable pub parse_text : List ℕ → Result Decimal
unfolding parse_unsigned
parse_text [] = parse_unsigned false []
parse_text (c ∷ cs) = if c == b'-' then parse_unsigned true cs else parse_unsigned false (c ∷ cs)

-- `charsetId`, with the byte order of the platform, in which OCI keeps UTF-16 text.
pub data Charset : Type 0 where
  single_byte utf16_little utf16_big : Charset

-- `(uint16_t*) value`, `valueLength / 2` units of it.
abbrev pub units : (ℕ → ℕ → ℕ) → List ℕ → List ℕ
units f [] = []
units f (a ∷ []) = []
units f (a ∷ b ∷ bs) = f a b ∷ units f bs

unfoldable pub ascii : List ℕ → Result (List ℕ)
ascii [] = ok []
ascii (u ∷ us) = do fail_if (ltb 127 u) invalid_number; rest ← ascii us; ok (u ∷ rest)

unfoldable pub to_single_byte : Charset → List ℕ → Result (List ℕ)
unfolding ascii
to_single_byte single_byte value = ok value
to_single_byte utf16_little value = ascii (units (λ a b. a + 256 * b) value)
to_single_byte utf16_big value = ascii (units (λ a b. 256 * a + b) value)

abbrev pub max_length : Charset → ℕ
max_length single_byte = number_as_text_chars
max_length _ = number_as_text_chars * 2

unfoldable pub parse_number_string : Charset → List ℕ → Result Decimal
unfolding to_single_byte parse_text
parse_number_string cs value = do
  fail_if (length value == 0) invalid_number
  fail_if (ltb (max_length cs) (length value)) number_string_too_long
  text ← to_single_byte cs value
  parse_text text
