-- ===== src/Number/Scan/Normal.antt =====
-- What `dpiUtils__parseNumberString` of src/dpiUtils.c leaves in `digits`.
use alpha_odpi.Error.{◌>>=◌, ◌>>◌, fail_if}
use alpha_odpi.Prelude.{
  ◌||◌, ℕ, ◌-◌, ◌<◌, ◌≡◌, ◌≢◌, refl, ◌⊎◌, inl, inr, Bool, true, false, List, [], ◌∷◌, ◌++◌, length,
  replicate, arith, ◌==◌, ◌∙◌, ap, Bool-cases, subst,
}
use alpha_odpi.Prelude.Int.{ℤ, pos}
use alpha_odpi.Error.{
  Result, Ensures, Ensures->>=, Ensures-fail_if, invalid_number, number_no_repr, Ensures-any,
  number_string_too_long,
}
use alpha_odpi.Number.Digits.{AreDigits, Decimal, IsNormal, first_digit, is_empty}
use alpha_odpi.Number.Scan.{
  add_digit, scan_integer, scan_fraction, fraction, exponent, strip, parse_unsigned, parse_text,
  no_repr, is_exponent, is_digit, not, parse_number_string, Charset, to_single_byte, ltb,
  max_length,
}
use alpha_odpi.Number.Scan.Strip.{strip-split, strip-last}

record IsStored (ds : List ℕ) : Type 0 where
  digits : AreDigits ds
  leads : is_empty ds ≡ false → first_digit ds ≢ 0

AreDigits-snoc : (ds : List ℕ) (d : ℕ) → d < 10 → AreDigits ds → AreDigits (ds ++ (d ∷ []))
AreDigits-snoc [] d h v = (h, tt)
AreDigits-snoc (e ∷ ds) d h v = (v.0, AreDigits-snoc ds d h v.1)

add_digit-IsStored : (ds : List ℕ) (d : ℕ) → d < 10 → IsStored ds → IsStored (add_digit ds d)
add_digit-IsStored [] d h v = record { digits = ground arith; leads = ground arith }
add_digit-IsStored (e ∷ ds) d h v = record {
  digits = ground (arith, AreDigits-snoc (e ∷ ds) d h v.digits);
  leads = ground arith;
}

scan_integer-IsStored :
    (ds cs : List ℕ) → IsStored ds → Ensures (λ r. IsStored r.0) (scan_integer ds cs)
unfolding scan_integer
scan_integer-IsStored ds [] v = v
scan_integer-IsStored ds (c ∷ cs) v = elim (Bool-cases (c == b'.' || is_exponent c)) [
  | inl e ↦ rw e v
  | inr e ↦ elim (Bool-cases (is_digit c)) [
    | inl d ↦
        rw (e, d)
          (scan_integer-IsStored (add_digit ds (c - b'0')) cs
            (add_digit-IsStored ds (c - b'0') (ground arith) v))
    | inr d ↦ rw (e, d) tt
  ]
]

scan_fraction-IsStored :
    (ds : List ℕ) (p : ℤ) (cs : List ℕ)
    → IsStored ds
    → Ensures (λ r. IsStored r.0) (scan_fraction ds p cs)
unfolding scan_fraction
scan_fraction-IsStored ds p [] v = v
scan_fraction-IsStored ds p (c ∷ cs) v = elim (Bool-cases (is_exponent c)) [
  | inl e ↦ rw e v
  | inr e ↦ elim (Bool-cases (is_digit c)) [
    | inl d ↦
        rw (e, d)
          (scan_fraction-IsStored (add_digit ds (c - b'0')) _ cs
            (add_digit-IsStored ds (c - b'0') (ground arith) v))
    | inr d ↦ rw (e, d) tt
  ]
]

fraction-IsStored : (ds cs : List ℕ) → IsStored ds → Ensures (λ r. IsStored r.0) (fraction ds cs)
unfolding fraction
fraction-IsStored ds [] v = v
fraction-IsStored ds (c ∷ cs) v = elim (Bool-cases (c == b'.')) [
  | inl e ↦ rw e (scan_fraction-IsStored ds (pos (length ds)) cs v)
  | inr e ↦ rw e v
]

-- The digits of a number are those of zero, none at all, or have no zero at either end.
abbrev pub IsParsed : Decimal → Type 0
IsParsed d = (d.digits ≡ []) ⊎ IsNormal d

AreDigits-append : (ds es : List ℕ) → AreDigits (ds ++ es) → AreDigits ds
AreDigits-append [] es v = tt
AreDigits-append (d ∷ ds) es v = (v.0, AreDigits-append ds es v.1)

first_digit-append :
    (ds es : List ℕ) → is_empty ds ≡ false → first_digit (ds ++ es) ≡ first_digit ds
first_digit-append [] es h = cc
first_digit-append (d ∷ ds) es h = refl

is_empty-append : (ds es : List ℕ) → is_empty ds ≡ false → is_empty (ds ++ es) ≡ false
is_empty-append [] es h = cc
is_empty-append (d ∷ ds) es h = refl

strip-IsStored : (ds : List ℕ) → IsStored ds → IsStored (strip ds)
strip-IsStored ds v =
    let (k, e) = strip-split ds in
    record {
      digits = AreDigits-append (strip ds) (replicate k 0) (subst AreDigits e v.digits);
      leads = λ h.
          subst (λ n. n ≢ 0) (ap first_digit e ∙ first_digit-append (strip ds) (replicate k 0) h)
            (v.leads (ap is_empty e ∙ is_empty-append (strip ds) (replicate k 0) h));
    }

nil_of_is_empty : (ds : List ℕ) → is_empty ds ≡ true → ds ≡ []
nil_of_is_empty [] h = refl
nil_of_is_empty (d ∷ ds) h = cc

stripped-IsParsed :
    (negative : Bool) (point : ℤ) (ds : List ℕ)
    → IsStored ds
    → no_repr (strip ds) point ≡ false
    → IsParsed (record { is_negative = negative; decimal_point_index = point; digits = strip ds })
stripped-IsParsed negative point ds v h = elim (Bool-cases (is_empty (strip ds))) [
  | inl e ↦ inl (nil_of_is_empty (strip ds) e)
  | inr e ↦ inr (record {
    decimal = (strip-IsStored ds v).digits;
    leading = (strip-IsStored ds v).leads e;
    trailing = strip-last ds e;
    precise = ground arith;
    lower = ground arith;
    upper = ground arith;
  })
]

parse_unsigned-IsParsed :
    (negative : Bool) (text : List ℕ) → Ensures IsParsed (parse_unsigned negative text)
unfolding parse_unsigned
parse_unsigned-IsParsed negative text =
    Ensures->>= (λ r. IsStored r.0) IsParsed (scan_integer [] text) _
      (scan_integer-IsStored [] text (record { digits = tt; leads = λ h. cc }))
      λ r v.
        Ensures->>= (λ s. IsStored s.0) IsParsed (fraction r.0 r.1) _ (fraction-IsStored r.0 r.1 v)
          λ s w.
            Ensures->>= (λ _. Unit {0}) IsParsed (exponent s.1 s.2) _
              (Ensures-any (exponent s.1 s.2))
              λ x _. Ensures-fail_if IsParsed (not (is_empty x.1)) invalid_number _ λ _.
                Ensures-fail_if IsParsed (no_repr (strip s.0) x.0) number_no_repr _
                  λ h. stripped-IsParsed negative x.0 s.0 w h

-- What a text is parsed into has no zero at either end and is in the range of an Oracle number.
pub parse_text-IsParsed : (text : List ℕ) → Ensures IsParsed (parse_text text)
unfolding parse_text
parse_text-IsParsed [] = parse_unsigned-IsParsed false []
parse_text-IsParsed (c ∷ cs) = elim (Bool-cases (c == b'-')) [
  | inl e ↦ rw e (parse_unsigned-IsParsed true cs)
  | inr e ↦ rw e (parse_unsigned-IsParsed false (c ∷ cs))
]

abbrev checked_length : Charset → List ℕ → Result Decimal
checked_length cs value =
    fail_if (ltb (max_length cs) (length value)) number_string_too_long
    >> (to_single_byte cs value >>= parse_text)

-- Whatever bytes are given, in either character set, a number that the parser returns either has no
-- digits or is normal: every digit below 10, no zero at either end, at most 40 digits, the point
-- between -129 and 126.
pub parse_number_string-IsParsed :
    (cs : Charset) (value : List ℕ) → Ensures IsParsed (parse_number_string cs value)
unfolding parse_number_string
parse_number_string-IsParsed cs value =
    Ensures-fail_if IsParsed (length value == 0) invalid_number (checked_length cs value) λ _.
      Ensures-fail_if IsParsed (ltb (max_length cs) (length value)) number_string_too_long
        (to_single_byte cs value >>= parse_text)
        λ _.
          Ensures->>= (λ _. Unit {0}) IsParsed (to_single_byte cs value) parse_text
            (Ensures-any (to_single_byte cs value)) (λ text _. parse_text-IsParsed text)
