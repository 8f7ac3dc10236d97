-- ===== src/Number/Encode.antt =====
-- `dpiDataBuffer__toOracleNumberFromText` of src/dpiData.c, behind the parsing of the text: the
-- bytes that it writes from the start of the OCINumber.
use alpha_odpi.Prelude.{
  ℕ, zero, suc, ◌+◌, ◌-◌, ◌*◌, ◌/◌, ◌%◌, Bool, true, false, not, ◌&&◌, List, [], ◌∷◌, ◌++◌, ltb,
  ◌==◌, if◌then◌else◌, length,
}
use alpha_odpi.Prelude.Int.{ℤ, pos, negsuc, ◌+ℤ◌, ◌-ℤ◌}
use alpha_odpi.Error.{Result, ok, ◌>>=◌}
use alpha_odpi.Number.Digits.{Decimal, number_max_digits, is_empty}
use alpha_odpi.Number.Scan.{Charset, parse_number_string}

-- `n % 2 == 1` for a positive number, `n % 2 == -1` for a negative one
abbrev pub is_odd : ℤ → Bool
is_odd (pos n) = n % 2 == 1
is_odd (negsuc n) = (n + 1) % 2 == 1

-- `n / 2`, which C rounds towards zero
abbrev pub half : ℤ → ℤ
half (pos n) = pos (n / 2)
half (negsuc n) = pos 0 -ℤ pos ((n + 1) / 2)

-- the conversion to `uint8_t`
abbrev pub to_uint8 : ℤ → ℕ
to_uint8 (pos n) = n % 256
to_uint8 (negsuc n) = 255 - n % 256

-- The exponent byte; a negative number has its bits inverted.
unfoldable pub exponent_byte : Bool → ℤ → ℕ
unfolding ◌+ℤ◌ ◌-ℤ◌
exponent_byte negative point =
    let e = to_uint8 (half (point -ℤ pos 2) +ℤ pos 193) in if negative then 255 - e else e

unfoldable pub mantissa_byte : Bool → ℕ → ℕ
mantissa_byte negative byte = if negative then (101 + 256 - byte) % 256 else (byte + 1) % 256

-- The loop over the pairs: the flag is `i == 0 && prependZero`, the number the rounds left.
-- The source reads no digit past its buffer, which holds two for each round.
unfoldable pub mantissa : Bool → Bool → ℕ → List ℕ → List ℕ
mantissa negative single zero ds = []
mantissa negative single (suc n) [] = []
mantissa negative true (suc n) (d ∷ ds) = mantissa_byte negative d ∷ mantissa negative false n ds
mantissa negative false (suc n) (d ∷ []) = []
mantissa negative false (suc n) (d ∷ e ∷ ds) =
    mantissa_byte negative ((d * 10 + e) % 256) ∷ mantissa negative false n ds

-- With an odd exponent the first digit stands alone in its pair.
abbrev pub prepends : Decimal → Bool
prepends d = is_odd d.decimal_point_index

abbrev pub align : Decimal → Decimal
align d =
    if prepends d && not (is_empty d.digits)
    then record d {
      decimal_point_index = d.decimal_point_index +ℤ pos 1;
      digits = d.digits ++ (0 ∷ []);
    }
    else d

abbrev pub pad : List ℕ → List ℕ
pad ds = if length ds % 2 == 1 then ds ++ (0 ∷ []) else ds

abbrev pub appends_sentinel : Bool → List ℕ → Bool
appends_sentinel negative ds = negative && ltb 0 (length ds) && ltb (length ds) number_max_digits

abbrev pub sentinel : Bool → List ℕ
sentinel true = 102 ∷ []
sentinel false = []

-- The bytes from the length byte on, for digits that are aligned and padded.
unfoldable pub oracle_bytes : Bool → Bool → ℤ → List ℕ → List ℕ
unfolding exponent_byte mantissa mantissa_byte
oracle_bytes negative single point ds =
    let s = appends_sentinel negative ds in
    if length ds == 0
    then (length ds / 2 + 1 + length (sentinel s)) % 256 ∷ 128 ∷ []
    else (length ds / 2 + 1 + length (sentinel s)) % 256
      ∷ (exponent_byte negative point ∷ (mantissa negative single (length ds / 2) ds ++ sentinel s))

unfoldable pub encode : Decimal → List ℕ
encode d =
    let a = align d in oracle_bytes d.is_negative (prepends d) a.decimal_point_index (pad a.digits)

unfoldable pub to_oracle_number_from_text : Charset → List ℕ → Result (List ℕ)
to_oracle_number_from_text cs value = do d ← parse_number_string cs value; ok (encode d)
