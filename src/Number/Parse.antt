-- ===== src/Number/Parse.antt =====
-- Parsing the text that was made of a number.
use alpha_odpi.Prelude.{
  ℕ, zero, suc, ◌+◌, ◌-◌, ◌≤◌, ◌<◌, ◌≡◌, ◌≢◌, refl, ◌∙◌, sym, ap, Bool, true, false, List, [], ◌∷◌,
  ◌++◌, append-nil, length, replicate, take, drop, take-append-drop, length-take, arith,
  length-append, length-replicate, dec_lt, length-drop, subst,
}
use alpha_odpi.Prelude.Int.{ℤ, pos, negsuc}
use alpha_odpi.Error.{ok}
use alpha_odpi.Number.Digits.{Decimal, IsNormal, AreDigits, first_digit, last_digit, is_empty}
use alpha_odpi.Number.Scan.Runs.{
  digit_codes, negative_of, scan_integer_start, scan_integer_run, scan_fraction_start,
  scan_fraction_run, scan_fraction_zeroes,
}
use alpha_odpi.Number.Scan.Strip.{strip_none, strip-append-zeroes}
use alpha_odpi.Number.Scan.{
  scan_integer, fraction, strip, no_repr, parse_unsigned, parse_text, scan_fraction,
}
use alpha_odpi.Number.Text.{chars, leading_chars, digit_chars, trailing_chars}
use alpha_odpi.Number.Print.{digit_chars_fraction, digit_chars_before, digit_chars_split}

not_empty : (ds : List ℕ) → first_digit ds ≢ 0 → is_empty ds ≡ false
not_empty [] h = absurd (h refl)
not_empty (d ∷ ds) h = refl

replicate-AreDigits : (k : ℕ) → AreDigits (replicate k 0)
replicate-AreDigits zero = tt
replicate-AreDigits (suc k) = (omega arith, replicate-AreDigits k)

digit_codes_zeroes : (k : ℕ) → digit_codes (replicate k 0) ≡ replicate k b'0'
digit_codes_zeroes zero = refl
digit_codes_zeroes (suc k) = ap (◌∷◌ b'0') (digit_codes_zeroes k)

-- A text with no exponent is parsed by its two runs of digits.
parse_unsigned_plain :
    (negative : Bool) (text ds rest es : List ℕ) (point : ℤ)
    → scan_integer [] text ≡ ok (ds, rest)
    → fraction ds rest ≡ ok (es, point, [])
    → no_repr (strip es) point ≡ false
    → parse_unsigned negative text
      ≡ ok (record { is_negative = negative; decimal_point_index = point; digits = strip es })
unfolding parse_unsigned
parse_unsigned_plain negative text ds rest es point h k r = rw (h, k) (rw r)

-- "0." and zeroes in front of the digits.
parse_unsigned_fraction :
    (negative : Bool) (k : ℕ) (ds : List ℕ)
    → AreDigits ds
    → first_digit ds ≢ 0
    → last_digit ds ≢ 0
    → no_repr ds (negative_of k) ≡ false
    → parse_unsigned negative (b'0' ∷ b'.' ∷ (replicate k b'0' ++ digit_codes ds))
      ≡ ok (record { is_negative = negative; decimal_point_index = negative_of k; digits = ds })
unfolding scan_integer fraction scan_fraction
parse_unsigned_fraction negative k ds v f l r =
    parse_unsigned_plain negative _ [] (b'.' ∷ (replicate k b'0' ++ digit_codes ds)) ds
      (negative_of k) refl scanned (rw (strip_none ds l) r)
    ∙ ap
        (λ x.
          ok (record { is_negative = negative; decimal_point_index = negative_of k; digits = x }))
        (strip_none ds l)
  where
    scanned : fraction [] (b'.' ∷ (replicate k b'0' ++ digit_codes ds)) ≡ ok (ds, negative_of k, [])
    scanned =
        scan_fraction_zeroes 0 k (digit_codes ds)
        ∙ ap (λ n. scan_fraction [] (negative_of n) (digit_codes ds)) (omega arith)
        ∙ ap (scan_fraction [] (negative_of k)) (sym (append-nil (digit_codes ds)))
        ∙ scan_fraction_start (negative_of k) ds [] v f

-- A point between two runs of digits.
parse_unsigned_split :
    (negative : Bool) (ds es : List ℕ)
    → AreDigits ds
    → AreDigits es
    → first_digit ds ≢ 0
    → last_digit (ds ++ es) ≢ 0
    → no_repr (ds ++ es) (pos (length ds)) ≡ false
    → parse_unsigned negative (digit_codes ds ++ (b'.' ∷ digit_codes es))
      ≡ ok (record {
        is_negative = negative;
        decimal_point_index = pos (length ds);
        digits = ds ++ es;
      })
unfolding scan_integer fraction scan_fraction
parse_unsigned_split negative ds es v w f l r =
    parse_unsigned_plain negative _ ds (b'.' ∷ digit_codes es) (ds ++ es) (pos (length ds))
      (scan_integer_start ds (b'.' ∷ digit_codes es) v f) scanned (rw (strip_none (ds ++ es) l) r)
    ∙ ap
        (λ x.
          ok (record { is_negative = negative; decimal_point_index = pos (length ds); digits = x }))
        (strip_none (ds ++ es) l)
  where
    scanned : fraction ds (b'.' ∷ digit_codes es) ≡ ok (ds ++ es, pos (length ds), [])
    scanned =
        ap (scan_fraction ds (pos (length ds))) (sym (append-nil (digit_codes es)))
        ∙ scan_fraction_run ds (pos (length ds)) es [] (not_empty ds f) w

-- Digits with zeroes behind them, and no point.
parse_unsigned_integer :
    (negative : Bool) (ds : List ℕ) (k : ℕ)
    → AreDigits ds
    → first_digit ds ≢ 0
    → last_digit ds ≢ 0
    → no_repr ds (pos (length ds + k)) ≡ false
    → parse_unsigned negative (digit_codes ds ++ replicate k b'0')
      ≡ ok (record {
        is_negative = negative;
        decimal_point_index = pos (length ds + k);
        digits = ds;
      })
unfolding scan_integer fraction
parse_unsigned_integer negative ds k v f l r =
    parse_unsigned_plain negative _ (ds ++ replicate k 0) [] (ds ++ replicate k 0)
      (pos (length ds + k)) scanned
      (ap (λ n. ok (ds ++ replicate k 0, pos n, []))
        (length-append ds (replicate k 0) ∙ ap (◌+◌ (length ds)) (length-replicate k 0)))
      (rw stripped r)
    ∙ ap
        (λ x. ok (record {
          is_negative = negative;
          decimal_point_index = pos (length ds + k);
          digits = x;
        }))
        stripped
  where
    stripped : strip (ds ++ replicate k 0) ≡ ds
    stripped = strip-append-zeroes ds k ∙ strip_none ds l

    scanned : scan_integer [] (digit_codes ds ++ replicate k b'0') ≡ ok (ds ++ replicate k 0, [])
    scanned =
        scan_integer_start ds (replicate k b'0') v f
        ∙ ap (scan_integer ds) (sym (append-nil _ ∙ digit_codes_zeroes k))
        ∙ scan_integer_run ds (replicate k 0) [] (not_empty ds f) (replicate-AreDigits k)

-- The characters behind the sign.
unsigned_chars : Decimal → List ℕ
unsigned_chars d =
    leading_chars d.decimal_point_index
    ++ (digit_chars d.decimal_point_index 0 d.digits
        ++ trailing_chars d.decimal_point_index (length d.digits))

no_repr_normal : (d : Decimal) → IsNormal d → no_repr d.digits d.decimal_point_index ≡ false
no_repr_normal d v = ground arith

chars_fraction :
    (k : ℕ) (ds : List ℕ)
    → leading_chars (negative_of k)
        ++ (digit_chars (negative_of k) 0 ds ++ trailing_chars (negative_of k) (length ds))
      ≡ b'0' ∷ b'.' ∷ (replicate k b'0' ++ digit_codes ds)
chars_fraction zero ds =
    let e : 0 - length ds ≡ 0 = omega arith in
    rw (digit_chars_fraction (pos 0) ds refl, e, append-nil)
chars_fraction (suc k) ds =
    let e : 0 - length ds ≡ 0 = omega arith in
    rw (digit_chars_fraction (negsuc k) ds refl, e, append-nil)

chars_integer :
    (n : ℕ) (ds : List ℕ)
    → length ds ≤ suc n
    → leading_chars (pos (suc n))
        ++ (digit_chars (pos (suc n)) 0 ds ++ trailing_chars (pos (suc n)) (length ds))
      ≡ digit_codes ds ++ replicate (suc n - length ds) b'0'
chars_integer n ds h = rw (digit_chars_before (pos (suc n)) 0 ds (omega arith))

chars_split :
    (n : ℕ) (ds es : List ℕ)
    → length ds ≡ suc n
    → es ≢ []
    → leading_chars (pos (suc n))
        ++ (digit_chars (pos (suc n)) 0 (ds ++ es)
            ++ trailing_chars (pos (suc n)) (length (ds ++ es)))
      ≡ digit_codes ds ++ (b'.' ∷ digit_codes es)
chars_split n ds es h e =
    let k : suc n - length (ds ++ es) ≡ 0 = omega (arith, length-append ds es) in
    rw (digit_chars_split (pos (suc n)) 0 ds es (omega arith) (omega arith) e, k, append-nil)

abbrev decimal : Bool → ℤ → List ℕ → Decimal
decimal negative point ds = record {
  is_negative = negative;
  decimal_point_index = point;
  digits = ds;
}

-- The text of a number is parsed into it, the sign apart.
abbrev IsRead : Bool → ℤ → List ℕ → Type 0
IsRead negative point ds =
    IsNormal (decimal negative point ds)
    → parse_unsigned negative (unsigned_chars (decimal negative point ds))
      ≡ ok (decimal negative point ds)

fraction-IsRead : (negative : Bool) (k : ℕ) (ds : List ℕ) → IsRead negative (negative_of k) ds
unfolding unsigned_chars
fraction-IsRead negative k ds v =
    ap (parse_unsigned negative) (chars_fraction k ds)
    ∙ parse_unsigned_fraction negative k ds v.decimal v.leading v.trailing
        (no_repr_normal (decimal negative (negative_of k) ds) v)

integer-IsRead :
    (negative : Bool) (n : ℕ) (ds : List ℕ) → length ds ≤ suc n → IsRead negative (pos (suc n)) ds
unfolding unsigned_chars
integer-IsRead negative n ds h v =
    let e : length ds + (suc n - length ds) ≡ suc n = omega arith in
    ap (parse_unsigned negative) (chars_integer n ds h)
    ∙ parse_unsigned_integer negative ds (suc n - length ds) v.decimal v.leading v.trailing
        (rw e (no_repr_normal (decimal negative (pos (suc n)) ds) v))
    ∙ ap (λ m. ok (decimal negative (pos m) ds)) e

AreDigits-append : (ds es : List ℕ) → AreDigits (ds ++ es) → AreDigits ds × AreDigits es
AreDigits-append [] es v = (tt, v)
AreDigits-append (d ∷ ds) es v = let (a, b) = AreDigits-append ds es v.1 in ((v.0, a), b)

first_digit-append :
    (n : ℕ) (ds es : List ℕ) → length ds ≡ suc n → first_digit (ds ++ es) ≡ first_digit ds
first_digit-append n [] es h = absurd (omega arith)
first_digit-append n (d ∷ ds) es h = refl

split-IsRead :
    (negative : Bool) (n : ℕ) (ds es : List ℕ)
    → length ds ≡ suc n
    → es ≢ []
    → IsRead negative (pos (suc n)) (ds ++ es)
unfolding unsigned_chars
split-IsRead negative n ds es h e v =
    ap (parse_unsigned negative) (chars_split n ds es h e)
    ∙ parse_unsigned_split negative ds es (AreDigits-append ds es v.decimal).0
        (AreDigits-append ds es v.decimal).1 (rw (← first_digit-append n ds es h) v.leading)
        v.trailing (rw h (no_repr_normal (decimal negative (pos (suc n)) (ds ++ es)) v))
    ∙ ap (λ m. ok (decimal negative (pos m) (ds ++ es))) h

drop-ne-nil : (n : ℕ) (ds : List ℕ) → n < length ds → drop n ds ≢ []
drop-ne-nil n ds h e = absurd (omega (arith, length-drop n ds, ap length e))

unsigned-IsRead : (negative : Bool) (point : ℤ) (ds : List ℕ) → IsRead negative point ds
unsigned-IsRead negative (negsuc k) ds = fraction-IsRead negative (suc k) ds
unsigned-IsRead negative (pos zero) ds = fraction-IsRead negative zero ds
unsigned-IsRead negative (pos (suc n)) ds = elim (dec_lt (suc n) (length ds)) [
  | yes h ↦ subst (IsRead negative (pos (suc n))) (take-append-drop (suc n) ds) (
      split-IsRead negative n (take (suc n) ds) (drop (suc n) ds)
        (omega (arith, length-take (suc n) ds)) (drop-ne-nil (suc n) ds h))
  | no h ↦ integer-IsRead negative n ds (omega arith)
]

-- Behind no sign, the first character is a digit.
parse_text_unsigned :
    (d : Decimal)
    → IsNormal d
    → parse_text (unsigned_chars d) ≡ parse_unsigned false (unsigned_chars d)
unfolding parse_text unsigned_chars digit_chars
parse_text_unsigned d v = go d.decimal_point_index d.digits v.decimal v.leading
  where
    go :
        (point : ℤ) (ds : List ℕ)
        → AreDigits ds
        → first_digit ds ≢ 0
        → parse_text (unsigned_chars (decimal d.is_negative point ds))
          ≡ parse_unsigned false (unsigned_chars (decimal d.is_negative point ds))
    go (negsuc k) ds w f = refl
    go (pos zero) ds w f = refl
    go (pos (suc n)) [] w f = absurd (f refl)
    go (pos (suc n)) (e ∷ es) w f = ground arith

-- The text that is made of a number with no zero at either end is parsed into that number.
pub parse_text-chars : (d : Decimal) → IsNormal d → parse_text (chars d) ≡ ok d
unfolding chars unsigned_chars parse_text
parse_text-chars d v = go d.is_negative d.decimal_point_index d.digits v
  where
    go :
        (negative : Bool) (point : ℤ) (ds : List ℕ)
        → IsNormal (decimal negative point ds)
        → parse_text (chars (decimal negative point ds)) ≡ ok (decimal negative point ds)
    go true point ds w = unsigned-IsRead true point ds w
    go false point ds w =
        parse_text_unsigned (decimal false point ds) w ∙ unsigned-IsRead false point ds w
