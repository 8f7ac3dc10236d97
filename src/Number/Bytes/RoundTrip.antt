-- ===== src/Number/Bytes/RoundTrip.antt =====
-- The bytes that `dpiDataBuffer__toOracleNumberFromText` of src/dpiData.c makes of a number, read
-- by `dpiUtils__parseOracleNumber` of src/dpiUtils.c.
use alpha_odpi.Prelude.{
  ◌⊎◌, zero, suc, ℕ, ◌+◌, ◌-◌, ◌*◌, ◌/◌, ◌%◌, ◌≤◌, ◌<◌, ◌≡◌, ◌≢◌, refl, Bool, true, false, List, [],
  ◌∷◌, ◌++◌, length, arith, if◌then◌else◌, ◌==◌, ◌∙◌, ap, length-append, Bool-cases, inl, inr, ap₂,
}
use alpha_odpi.Prelude.Int.{ℤ, pos, negsuc, ◌+ℤ◌, ◌≤ℤ◌, int_laws, +ℤ_cancel}
use alpha_odpi.Error.{ok}
use alpha_odpi.Number.Digits.{
  AreDigits, Decimal, IsNormal, last_digit, first_digit, number_max_digits, is_empty,
}
use alpha_odpi.Number.Encode.{
  encode, oracle_bytes, mantissa, mantissa_byte, sentinel, is_odd, exponent_byte, pad,
  appends_sentinel,
}
use alpha_odpi.Number.Decode.{parse_oracle_number}
use alpha_odpi.Number.Bytes.Mantissa.{trim}
use alpha_odpi.Number.Bytes.Stream.{stream_decimal, parse_oracle_number-stream}

trim-whole : (ds : List ℕ) → last_digit ds ≢ 0 → trim ds ≡ ds
trim-whole [] h = refl
trim-whole (d ∷ []) h = ground arith
trim-whole (d ∷ e ∷ ds) h = ap (◌∷◌ d) (trim-whole (e ∷ ds) h)

trim-padded : (ds : List ℕ) → last_digit ds ≢ 0 → trim (ds ++ (0 ∷ [])) ≡ ds
trim-padded [] h = refl
trim-padded (d ∷ []) h = refl
trim-padded (d ∷ e ∷ ds) h = ap (◌∷◌ d) (trim-padded (e ∷ ds) h)

trim-pad : (ds : List ℕ) → last_digit ds ≢ 0 → trim (pad ds) ≡ ds
trim-pad ds h = ground (arith, trim-whole ds h, trim-padded ds h)

-- The digits behind a zero that fills up the first pair.
abbrev pad_behind : List ℕ → List ℕ
pad_behind ds = if length ds % 2 == 1 then ds else ds ++ (0 ∷ [])

trim-pad_behind : (ds : List ℕ) → last_digit ds ≢ 0 → trim (pad_behind ds) ≡ ds
trim-pad_behind ds h = ground (arith, trim-whole ds h, trim-padded ds h)

pad-snoc : (ds : List ℕ) → pad (ds ++ (0 ∷ [])) ≡ pad_behind ds ++ (0 ∷ [])
pad-snoc ds = ground (arith, length-append ds (0 ∷ []))

AreDigits-snoc : (ds : List ℕ) → AreDigits ds → AreDigits (ds ++ (0 ∷ []))
AreDigits-snoc [] v = (omega arith, tt)
AreDigits-snoc (d ∷ ds) v = (v.0, AreDigits-snoc ds v.1)

pad-AreDigits : (ds : List ℕ) → AreDigits ds → AreDigits (pad ds)
pad-AreDigits ds v = ground (arith, AreDigits-snoc ds v)

pad_behind-AreDigits : (ds : List ℕ) → AreDigits ds → AreDigits (pad_behind ds)
pad_behind-AreDigits ds v = ground (arith, AreDigits-snoc ds v)

-- A digit past the last pair is not used.
mantissa-snoc :
    (negative : Bool) (n x : ℕ) (s : List ℕ)
    → length s ≡ 2 * n
    → mantissa negative false n (s ++ (x ∷ [])) ≡ mantissa negative false n s
unfolding mantissa
mantissa-snoc negative zero x s h = refl
mantissa-snoc negative (suc n) x [] h = absurd (omega arith)
mantissa-snoc negative (suc n) x (a ∷ []) h = absurd (omega arith)
mantissa-snoc negative (suc n) x (a ∷ b ∷ s) h =
    ap (◌∷◌ (mantissa_byte negative ((a * 10 + b) % 256)))
      (mantissa-snoc negative n x s (omega arith))

-- The first digit alone makes the byte of a pair that begins with a zero.
mantissa-prepended :
    (negative : Bool) (n : ℕ) (s : List ℕ)
    → length s ≡ 2 * n + 1
    → AreDigits s
    → mantissa negative true (suc n) (s ++ (0 ∷ [])) ≡ mantissa negative false (suc n) (0 ∷ s)
unfolding mantissa
mantissa-prepended negative n [] h v = absurd (omega arith)
mantissa-prepended negative n (a ∷ s) h v =
    let e : a ≡ (0 * 10 + a) % 256 = omega (arith, v.0) in
    ap₂ ◌∷◌ (ap (mantissa_byte negative) e) (mantissa-snoc negative n 0 s (omega arith))

-- The bytes of digits that fill whole pairs.
oracle_bytes_pairs :
    (negative single : Bool) (n : ℕ) (point : ℤ) (ds m rest : List ℕ)
    → length ds ≡ 2 * suc n
    → mantissa negative single (suc n) ds ≡ m
    → oracle_bytes negative single point ds ++ rest
      ≡ (suc n + 1 + length (sentinel (appends_sentinel negative ds))) % 256
        ∷ (exponent_byte negative point ∷ ((m ++ sentinel (appends_sentinel negative ds)) ++ rest))
unfolding oracle_bytes
oracle_bytes_pairs negative single n point ds m rest h e =
    let half_length : length ds / 2 ≡ suc n = omega arith in
    let some_digits : (length ds == 0) ≡ false = ground arith in rw (some_digits, half_length, e)

-- With an odd place of the point a pair is lost to the zero in front: 39 digits are left.
abbrev pub IsAlignable : Decimal → Type 0
IsAlignable d = (is_odd d.decimal_point_index ≡ false) ⊎ (length d.digits < number_max_digits)

-- So a place that is odd leaves room for the zero in front.
pub odd_room :
    (d : Decimal)
    → IsAlignable d
    → is_odd d.decimal_point_index ≡ true
    → length d.digits < number_max_digits
odd_room d (inl e) o = absurd (ground arith)
odd_room d (inr h) o = h

pairs_of : (k : ℕ) → k % 2 ≡ 0 → 0 < k → (n : ℕ) × (k ≡ 2 * suc n)
pairs_of k e h = (k / 2 - 1, omega arith)

appends_sentinel-le :
    (negative : Bool) (n : ℕ) (ds : List ℕ)
    → length ds ≡ 2 * suc n
    → length ds ≤ number_max_digits
    → suc n + length (sentinel (appends_sentinel negative ds)) ≤ 20
appends_sentinel-le negative n ds h k = ground arith

appends_sentinel-negative :
    (negative : Bool) (ds : List ℕ) → appends_sentinel negative ds ≡ true → negative ≡ true
appends_sentinel-negative negative ds h = ground arith

length-pad : (ds : List ℕ) → length (pad ds) ≡ length ds + length ds % 2
length-pad ds = ground (arith, length-append ds (0 ∷ []))

length-pad_behind : (ds : List ℕ) → length (pad_behind ds) + 1 ≡ length ds + 2 - length ds % 2
length-pad_behind ds = ground (arith, length-append ds (0 ∷ []))

not_empty : (ds : List ℕ) → first_digit ds ≢ 0 → is_empty ds ≡ false
not_empty [] h = absurd (h refl)
not_empty (d ∷ ds) h = refl

length_pos : (ds : List ℕ) → first_digit ds ≢ 0 → 0 < length ds
length_pos [] h = absurd (h refl)
length_pos (d ∷ ds) h = omega arith

first_digit-pad : (ds : List ℕ) → first_digit ds ≢ 0 → first_digit (pad ds) ≡ first_digit ds
first_digit-pad [] h = absurd (h refl)
first_digit-pad (d ∷ ds) h = ground arith

stream_decimal_full :
    (negative : Bool) (point : ℤ) (t : List ℕ)
    → first_digit t ≢ 0
    → stream_decimal negative point t
      ≡ record { is_negative = negative; decimal_point_index = point; digits = trim t }
stream_decimal_full negative point [] h = absurd (h refl)
stream_decimal_full negative point (a ∷ []) h = ground arith
stream_decimal_full negative point (a ∷ b ∷ t) h = ground arith

lower_even : (point : ℤ) → is_odd point ≡ false → negsuc 128 ≤ℤ point → negsuc 127 ≤ℤ point
lower_even (pos n) e l = omega arith
lower_even (negsuc n) e l = ground arith

next_even : (point : ℤ) → is_odd point ≡ true → is_odd (point +ℤ pos 1) ≡ false
unfolding ◌+ℤ◌
next_even (pos n) e = ground arith
next_even (negsuc n) e = ground arith

lower_odd : (point : ℤ) → negsuc 128 ≤ℤ point → negsuc 127 ≤ℤ point +ℤ pos 1
lower_odd point l = omega int_laws

upper_odd : (point : ℤ) → is_odd point ≡ true → point ≤ℤ pos 126 → point +ℤ pos 1 ≤ℤ pos 126
unfolding ◌+ℤ◌
upper_odd (pos n) e u = ground arith
upper_odd (negsuc n) e u = ground arith

stream_decimal_prepended :
    (negative : Bool) (point : ℤ) (ds : List ℕ)
    → stream_decimal negative (point +ℤ pos 1) (0 ∷ ds)
      ≡ record { is_negative = negative; decimal_point_index = point; digits = trim ds }
stream_decimal_prepended negative point ds =
    ap (λ x. record { is_negative = negative; decimal_point_index = x; digits = trim ds })
      (+ℤ_cancel point (pos 1))

encode_even :
    (d : Decimal)
    → is_odd d.decimal_point_index ≡ false
    → encode d ≡ oracle_bytes d.is_negative false d.decimal_point_index (pad d.digits)
unfolding encode
encode_even d e = rw e

encode_odd :
    (d : Decimal)
    → is_odd d.decimal_point_index ≡ true
    → is_empty d.digits ≡ false
    → encode d
      ≡ oracle_bytes d.is_negative true
          (d.decimal_point_index +ℤ pos 1)
          (pad (d.digits ++ (0 ∷ [])))
unfolding encode
encode_odd d e h = rw (e, h)

decode-encode_even :
    (d : Decimal) (rest : List ℕ)
    → IsNormal d
    → is_odd d.decimal_point_index ≡ false
    → parse_oracle_number (encode d ++ rest) ≡ ok d
decode-encode_even d rest v e =
    let ds = pad d.digits in
    let (n, h) =
      pairs_of (length ds) (omega (arith, length-pad d.digits))
        (omega (arith, length-pad d.digits, length_pos d.digits v.leading)) in
    let present = appends_sentinel d.is_negative ds in
    let small : length ds ≤ number_max_digits = omega (arith, length-pad d.digits) in
    let led : first_digit ds ≢ 0 = rw (first_digit-pad d.digits v.leading) v.leading in
    ap (λ x. parse_oracle_number (x ++ rest)) (encode_even d e)
    ∙ ap parse_oracle_number
        (oracle_bytes_pairs d.is_negative false n d.decimal_point_index ds _ rest h refl)
    ∙ parse_oracle_number-stream d.is_negative present n d.decimal_point_index ds rest h
        (pad-AreDigits d.digits v.decimal) (appends_sentinel-negative d.is_negative ds)
        (appends_sentinel-le d.is_negative n ds h small) e
        (lower_even d.decimal_point_index e v.lower) v.upper
    ∙ ap ok (stream_decimal_full d.is_negative d.decimal_point_index ds led)
    ∙ ap (λ x. ok (record d { digits = x })) (trim-pad d.digits v.trailing)

decode-encode_odd :
    (d : Decimal) (rest : List ℕ)
    → IsNormal d
    → length d.digits < number_max_digits
    → is_odd d.decimal_point_index ≡ true
    → parse_oracle_number (encode d ++ rest) ≡ ok d
decode-encode_odd d rest v k e =
    let ds = pad_behind d.digits in
    let padded = pad (d.digits ++ (0 ∷ [])) in
    let point = d.decimal_point_index +ℤ pos 1 in
    let same : padded ≡ ds ++ (0 ∷ []) = pad-snoc d.digits in
    let long : length padded ≡ length ds + 1 = ap length same ∙ length-append ds (0 ∷ []) in
    let (n, h) =
      pairs_of (length padded) (omega (arith, length-pad_behind d.digits)) (omega arith) in
    let present = appends_sentinel d.is_negative padded in
    let small : length padded ≤ number_max_digits = omega (arith, length-pad_behind d.digits) in
    ap (λ x. parse_oracle_number (x ++ rest)) (encode_odd d e (not_empty d.digits v.leading))
    ∙ ap parse_oracle_number (
        oracle_bytes_pairs d.is_negative true n point padded _ rest h (
          ap (mantissa d.is_negative true (suc n)) same
          ∙ mantissa-prepended d.is_negative n ds (omega arith)
              (pad_behind-AreDigits d.digits v.decimal)))
    ∙ parse_oracle_number-stream d.is_negative present n point (0 ∷ ds) rest (omega arith)
        (omega arith, pad_behind-AreDigits d.digits v.decimal)
        (appends_sentinel-negative d.is_negative padded)
        (appends_sentinel-le d.is_negative n padded h small) (next_even d.decimal_point_index e)
        (lower_odd d.decimal_point_index v.lower) (upper_odd d.decimal_point_index e v.upper)
    ∙ ap ok (stream_decimal_prepended d.is_negative d.decimal_point_index ds)
    ∙ ap (λ x. ok (record d { digits = x })) (trim-pad_behind d.digits v.trailing)

-- The bytes that are written for a normal number (1 to 40 digits, no zero at either end, the point
-- between -129 and 126), followed by any bytes, are read back as that number, unless it has 40
-- digits and an odd place of the point.
pub decode-encode :
    (d : Decimal) (rest : List ℕ)
    → IsNormal d
    → IsAlignable d
    → parse_oracle_number (encode d ++ rest) ≡ ok d
decode-encode d rest v a = elim (Bool-cases (is_odd d.decimal_point_index)) [
  | inl e ↦ decode-encode_odd d rest v (odd_room d a e) e
  | inr e ↦ decode-encode_even d rest v e
]
