-- ===== src/Number/Bytes/Size.antt =====
-- How many bytes `dpiDataBuffer__toOracleNumberFromText` of src/dpiData.c writes into an OCINumber.
use alpha_odpi.Prelude.{
  zero, suc, ℕ, ◌+◌, ◌*◌, ◌/◌, ◌%◌, ◌≤◌, ◌<◌, ◌≡◌, ◌≢◌, refl, Bool, true, false, List, [], ◌∷◌,
  length, arith, ◌==◌, length-append, Bool-cases, inl, inr,
}
use alpha_odpi.Number.Digits.{Decimal, IsNormal, number_max_digits, oci_number_size, first_digit}
use alpha_odpi.Number.Encode.{
  encode, oracle_bytes, mantissa, sentinel, pad, appends_sentinel, is_odd, align, prepends,
}
use alpha_odpi.Number.Bytes.RoundTrip.{IsAlignable, odd_room}
use alpha_odpi.Prelude.Int.{ℤ}

-- A round for each pair, if the digits are there.
length-mantissa-eq :
    (negative : Bool) (n : ℕ) (ds : List ℕ)
    → 2 * n ≤ length ds
    → length (mantissa negative false n ds) ≡ n
unfolding mantissa
length-mantissa-eq negative zero ds h = refl
length-mantissa-eq negative (suc n) [] h = absurd (omega arith)
length-mantissa-eq negative (suc n) (d ∷ []) h = absurd (omega arith)
length-mantissa-eq negative (suc n) (d ∷ e ∷ ds) h =
    omega (arith, length-mantissa-eq negative n ds (omega arith))

length-mantissa-single :
    (negative : Bool) (n : ℕ) (ds : List ℕ)
    → 2 * n ≤ length ds
    → length (mantissa negative true n ds) ≡ n
unfolding mantissa
length-mantissa-single negative zero ds h = refl
length-mantissa-single negative (suc n) [] h = absurd (omega arith)
length-mantissa-single negative (suc n) (d ∷ ds) h =
    omega (arith, length-mantissa-eq negative n ds (omega arith))

length-mantissa-any :
    (negative single : Bool) (n : ℕ) (ds : List ℕ)
    → 2 * n ≤ length ds
    → length (mantissa negative single n ds) ≡ n
length-mantissa-any negative true = length-mantissa-single negative
length-mantissa-any negative false = length-mantissa-eq negative

length-oracle_bytes :
    (negative single : Bool) (point : ℤ) (ds : List ℕ)
    → 0 < length ds
    → length (oracle_bytes negative single point ds)
      ≡ length ds / 2 + 2 + length (sentinel (appends_sentinel negative ds))
unfolding oracle_bytes
length-oracle_bytes negative single point ds h =
    let some_digits : (length ds == 0) ≡ false = ground arith in
    rw some_digits (
      omega (
        arith,
        length-append (mantissa negative single (length ds / 2) ds)
            (sentinel (appends_sentinel negative ds)),
        length-mantissa-any negative single (length ds / 2) ds (omega arith),
      ))

length-pad : (ds : List ℕ) → length (pad ds) ≡ length ds + length ds % 2
length-pad ds = ground (arith, length-append ds (0 ∷ []))

length_pos : (d : Decimal) → IsNormal d → 0 < length d.digits
length_pos d v = go d.digits v.leading
  where
    go : (ds : List ℕ) → first_digit ds ≢ 0 → 0 < length ds
    go [] h = absurd (h refl)
    go (x ∷ ds) h = omega arith

length-align_odd :
    (d : Decimal)
    → IsNormal d
    → is_odd d.decimal_point_index ≡ true
    → length (align d).digits ≡ length d.digits + 1
length-align_odd d v e = ground (arith, length-append d.digits (0 ∷ []), length_pos d v)

length-align_even :
    (d : Decimal) → is_odd d.decimal_point_index ≡ false → length (align d).digits ≡ length d.digits
length-align_even d e = rw e

length-align-le : (d : Decimal) → length d.digits ≤ length (align d).digits
length-align-le d = ground (arith, length-append d.digits (0 ∷ []))

length-encode :
    (d : Decimal)
    → IsNormal d
    → length (encode d)
      ≡ length (pad (align d).digits) / 2
        + 2
        + length (sentinel (appends_sentinel d.is_negative (pad (align d).digits)))
unfolding encode
length-encode d v =
    length-oracle_bytes d.is_negative (prepends d) (align d).decimal_point_index
      (pad (align d).digits)
      (omega (arith, length-pad (align d).digits, length-align-le d, length_pos d v))

length-sentinel-le : (b : Bool) → length (sentinel b) ≤ 1
length-sentinel-le true = omega arith
length-sentinel-le false = omega arith

sentinel-full :
    (negative : Bool) (ds : List ℕ)
    → 40 ≤ length ds
    → length (sentinel (appends_sentinel negative ds)) ≡ 0
sentinel-full negative ds h = ground arith

sentinel_room :
    (negative : Bool) (ds : List ℕ)
    → length ds ≤ 40
    → length ds / 2 + length (sentinel (appends_sentinel negative ds)) ≤ 20
sentinel_room negative ds h = ground arith

fits_within :
    (d : Decimal)
    → IsNormal d
    → length (pad (align d).digits) ≤ number_max_digits
    → length (encode d) ≤ oci_number_size
fits_within d v h =
    omega (arith, length-encode d v, sentinel_room d.is_negative (pad (align d).digits) h)

-- A normal number takes at most the 22 bytes of an OCINumber, unless it has 40 digits and an odd
-- place of the point.
pub encode-fits : (d : Decimal) → IsNormal d → IsAlignable d → length (encode d) ≤ oci_number_size
encode-fits d v a = elim (Bool-cases (is_odd d.decimal_point_index)) [
  | inl e ↦
      let k : length d.digits < number_max_digits = odd_room d a e in
      fits_within d v (omega (arith, length-pad (align d).digits, length-align_odd d v e))
  | inr e ↦
      fits_within d v (omega (arith, length-pad (align d).digits, length-align_even d e, v.precise))
]

-- A normal number of 40 digits with an odd place of the point takes 23 bytes, one more than an
-- OCINumber has.
pub encode-overflows :
    (d : Decimal)
    → IsNormal d
    → length d.digits ≡ number_max_digits
    → is_odd d.decimal_point_index ≡ true
    → length (encode d) ≡ oci_number_size + 1
encode-overflows d v h e = omega (
  arith,
  length-encode d v,
  length-pad (align d).digits,
  length-align_odd d v e,
  sentinel-full d.is_negative (pad (align d).digits),
)
