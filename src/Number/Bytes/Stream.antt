-- ===== src/Number/Bytes/Stream.antt =====
-- `dpiUtils__parseOracleNumber` of src/dpiUtils.c on bytes made of whole pairs of digits.
use alpha_odpi.Prelude.{
  zero, suc, ℕ, ◌+◌, ◌*◌, ◌%◌, ◌≤◌, ◌<◌, ◌≡◌, refl, Bool, true, false, List, [], ◌∷◌, ◌++◌, length,
  arith, take, if◌then◌else◌, ◌==◌, ◌∙◌, ap, sym, append-nil, ap₂, length-append, ltb,
}
use alpha_odpi.Prelude.Int.{ℤ, pos, negsuc, ◌-ℤ◌, ◌≤ℤ◌}
use alpha_odpi.Error.{ok}
use alpha_odpi.Number.Digits.{AreDigits, Decimal}
use alpha_odpi.Number.Encode.{mantissa, sentinel, is_odd, exponent_byte}
use alpha_odpi.Number.Decode.{
  parse_oracle_number, read_digits, drop_sentinel, read_mantissa, Progress,
}
use alpha_odpi.Number.Bytes.Exponent.{exponent_byte-IsExponent, IsExponent}
use alpha_odpi.Number.Bytes.Mantissa.{read_mantissa-Reads, read_mantissa_count, trim, start, Reads}
use alpha_odpi.Number.Bytes.Sentinel.{length-mantissa, drop_sentinel-mantissa}

take-length-append : (xs ys : List ℕ) (n : ℕ) → length xs ≡ n → take n (xs ++ ys) ≡ xs
take-length-append [] ys zero h = refl
take-length-append [] ys (suc n) h = absurd (omega arith)
take-length-append (x ∷ xs) ys zero h = absurd (omega arith)
take-length-append (x ∷ xs) ys (suc n) h = ap (◌∷◌ x) (take-length-append xs ys n (omega arith))

take-all : (xs : List ℕ) (n : ℕ) → n ≡ length xs → take n xs ≡ xs
take-all xs n h = ap (take n) (sym (append-nil xs)) ∙ take-length-append xs [] n (sym h)

abbrev digits_read : Bool → Progress → Decimal
digits_read negative r = record {
  is_negative = negative;
  decimal_point_index = r.decimal_point_index;
  digits = take r.num_digits r.digits;
}

-- The digits and the place that a run of pairs stands for.
abbrev pub pairs_decimal : Bool → ℤ → ℕ → List ℕ → Decimal
pairs_decimal negative point a s = record {
  is_negative = negative;
  decimal_point_index = if a == 0 then point -ℤ pos 1 else point;
  digits = (if a == 0 then [] else a ∷ []) ++ trim s;
}

parse_oracle_number_parts :
    (negative : Bool) (point : ℤ) (lb eb k : ℕ) (body bs rest : List ℕ)
    → IsExponent negative point eb
    → (lb + 255) % 256 ≡ k
    → k ≤ 20
    → 0 < k
    → length body ≡ k
    → drop_sentinel negative body ≡ bs
    → parse_oracle_number (lb ∷ eb ∷ (body ++ rest)) ≡ ok (read_digits negative point bs)
unfolding parse_oracle_number
parse_oracle_number_parts negative point lb eb k body bs rest v e u l h d =
    let small : ltb 20 k ≡ false = ground arith in
    let some_bytes : (k == 0) ≡ false = ground arith in
    rw (e, small, some_bytes, take-length-append body rest k h, v.sign, v.place, d)

finished :
    (negative : Bool) (r : Progress) (ds : List ℕ) (point : ℤ)
    → Reads r ds point
    → r.num_digits ≡ length r.digits
    → digits_read negative r
      ≡ record { is_negative = negative; decimal_point_index = point; digits = ds }
finished negative r ds point v c =
    ap₂ (λ x y. record { is_negative = negative; decimal_point_index = x; digits = y }) v.place
      (take-all r.digits r.num_digits c ∙ v.all)

module _ (negative : Bool) (n a b : ℕ) (s : List ℕ) (point : ℤ) (whole : length s ≡ 2 * n)
    (decimal : AreDigits (a ∷ b ∷ s)) where
  abbrev bytes : List ℕ
  bytes = mantissa negative false (suc n) (a ∷ b ∷ s)

  read_digits-pairs : read_digits negative point bytes ≡ pairs_decimal negative point a (b ∷ s)
  unfolding read_digits
  read_digits-pairs =
      finished negative (read_mantissa negative true bytes (start (length bytes * 2) point)) _ _
        (read_mantissa-Reads negative n a b (length bytes * 2) s point whole decimal)
        (read_mantissa_count negative true bytes (start (length bytes * 2) point) (omega arith))

  -- Whatever follows the bytes.
  parse_oracle_number-pairs :
      (present : Bool) (rest : List ℕ)
      → (present ≡ true → negative ≡ true)
      → suc n + length (sentinel present) ≤ 20
      → is_odd point ≡ false
      → negsuc 127 ≤ℤ point
      → point ≤ℤ pos 126
      → parse_oracle_number (
          (suc n + 1 + length (sentinel present)) % 256
          ∷ (exponent_byte negative point ∷ ((bytes ++ sentinel present) ++ rest)))
        ≡ ok (pairs_decimal negative point a (b ∷ s))
  parse_oracle_number-pairs present rest p k o l u =
      parse_oracle_number_parts negative point _ _ (suc n + length (sentinel present)) _ bytes rest
        (exponent_byte-IsExponent negative point o l u) (omega arith) k (omega arith)
        (omega (
          arith,
          length-append bytes (sentinel present),
          length-mantissa negative (suc n) (a ∷ b ∷ s) (omega arith),
        ))
        (drop_sentinel-mantissa negative present (suc n) (a ∷ b ∷ s) p decimal)
      ∙ ap ok read_digits-pairs

-- The number that the pairs `t` stand for, behind an exponent for the place `point`.
abbrev pub stream_decimal : Bool → ℤ → List ℕ → Decimal
stream_decimal negative point [] = pairs_decimal negative point 0 []
stream_decimal negative point (a ∷ t) = pairs_decimal negative point a t

pub parse_oracle_number-stream :
    (negative present : Bool) (n : ℕ) (point : ℤ) (t rest : List ℕ)
    → length t ≡ 2 * suc n
    → AreDigits t
    → (present ≡ true → negative ≡ true)
    → suc n + length (sentinel present) ≤ 20
    → is_odd point ≡ false
    → negsuc 127 ≤ℤ point
    → point ≤ℤ pos 126
    → parse_oracle_number (
        (suc n + 1 + length (sentinel present)) % 256
        ∷ (exponent_byte negative point
            ∷ ((mantissa negative false (suc n) t ++ sentinel present) ++ rest)))
      ≡ ok (stream_decimal negative point t)
parse_oracle_number-stream negative present n point [] rest h v = absurd (omega arith)
parse_oracle_number-stream negative present n point (a ∷ []) rest h v = absurd (omega arith)
parse_oracle_number-stream negative present n point (a ∷ b ∷ s) rest h v =
    parse_oracle_number-pairs negative n a b s point (omega arith) v present rest
