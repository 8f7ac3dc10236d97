-- ===== src/Number/Scan/Runs.antt =====
-- The scanning loops of `dpiUtils__parseNumberString`, src/dpiUtils.c, over a run of digits.
use alpha_odpi.Prelude.{
  ℕ, zero, suc, ◌+◌, ◌-◌, ◌<◌, ◌≡◌, ◌≢◌, refl, ◌∙◌, ap, true, false, List, [], ◌∷◌, ◌++◌,
  append-nil, append_assoc, ◌==◌, replicate, arith,
}
use native.Mathlib.Nat.{add-zero}
use alpha_odpi.Prelude.Int.{ℤ, pos, negsuc, ◌-ℤ◌}
use alpha_odpi.Number.Digits.{is_empty, AreDigits, first_digit}
use alpha_odpi.Number.Scan.{is_digit, is_exponent, scan_integer, scan_fraction, add_digit, skips}

abbrev pub digit_codes : List ℕ → List ℕ
digit_codes [] = []
digit_codes (d ∷ ds) = (b'0' + d) ∷ digit_codes ds

-- A digit is taken as such by either loop.
record IsDigitCode (d : ℕ) : Type 0 where
  digit : is_digit (b'0' + d) ≡ true
  no_exponent : is_exponent (b'0' + d) ≡ false
  no_point : ((b'0' + d) == b'.') ≡ false
  value : b'0' + d - b'0' ≡ d

is_digit_code : (d : ℕ) → d < 10 → IsDigitCode d
is_digit_code d h = record {
  digit = ground arith;
  no_exponent = ground arith;
  no_point = ground arith;
  value = omega arith;
}

is_empty-append : (ds : List ℕ) (d : ℕ) → is_empty (ds ++ (d ∷ [])) ≡ false
is_empty-append [] d = refl
is_empty-append (e ∷ ds) d = refl

add_digit-started : (ds : List ℕ) (d : ℕ) → is_empty ds ≡ false → add_digit ds d ≡ ds ++ (d ∷ [])
add_digit-started ds d h = ground arith

add_digit_nonzero : (d : ℕ) → d ≢ 0 → add_digit [] d ≡ d ∷ []
add_digit_nonzero d h = ground arith

-- The integer -n
abbrev pub negative_of : ℕ → ℤ
negative_of zero = pos 0
negative_of (suc n) = negsuc n

negative_of_suc : (n : ℕ) → negative_of n -ℤ pos 1 ≡ negative_of (n + 1)
unfolding ◌-ℤ◌
negative_of_suc zero = refl
negative_of_suc (suc n) = ground arith

scan_integer_step :
    (ds : List ℕ) (d : ℕ) (cs : List ℕ)
    → d < 10
    → scan_integer ds ((b'0' + d) ∷ cs) ≡ scan_integer (add_digit ds d) cs
unfolding scan_integer
scan_integer_step ds d cs h = ground (arith, is_digit_code d h)

-- Once a digit is stored, a run of digits is stored as it stands.
pub scan_integer_run :
    (ds es cs : List ℕ)
    → is_empty ds ≡ false
    → AreDigits es
    → scan_integer ds (digit_codes es ++ cs) ≡ scan_integer (ds ++ es) cs
scan_integer_run ds [] cs h v = rw append-nil
scan_integer_run ds (e ∷ es) cs h v =
    scan_integer_step ds e (digit_codes es ++ cs) v.0
    ∙ ap (λ x. scan_integer x (digit_codes es ++ cs)) (add_digit-started ds e h)
    ∙ scan_integer_run (ds ++ (e ∷ [])) es cs (is_empty-append ds e) v.1
    ∙ ap (λ x. scan_integer x cs) (append_assoc ds (e ∷ []) es)

-- So it is from the start, if the run does not begin with a zero.
pub scan_integer_start :
    (es cs : List ℕ)
    → AreDigits es
    → first_digit es ≢ 0
    → scan_integer [] (digit_codes es ++ cs) ≡ scan_integer es cs
scan_integer_start [] cs v h = absurd (h refl)
scan_integer_start (e ∷ es) cs v h =
    scan_integer_step [] e (digit_codes es ++ cs) v.0
    ∙ ap (λ x. scan_integer x (digit_codes es ++ cs)) (add_digit_nonzero e h)
    ∙ scan_integer_run (e ∷ []) es cs refl v.1

scan_fraction_step :
    (ds : List ℕ) (p : ℤ) (d : ℕ) (cs : List ℕ)
    → d < 10
    → skips ds d ≡ false
    → scan_fraction ds p ((b'0' + d) ∷ cs) ≡ scan_fraction (ds ++ (d ∷ [])) p cs
unfolding scan_fraction
scan_fraction_step ds p d cs h s = ground (arith, is_digit_code d h)

pub scan_fraction_run :
    (ds : List ℕ) (p : ℤ) (es cs : List ℕ)
    → is_empty ds ≡ false
    → AreDigits es
    → scan_fraction ds p (digit_codes es ++ cs) ≡ scan_fraction (ds ++ es) p cs
scan_fraction_run ds p [] cs h v = rw append-nil
scan_fraction_run ds p (e ∷ es) cs h v =
    scan_fraction_step ds p e (digit_codes es ++ cs) v.0 (ground arith)
    ∙ scan_fraction_run (ds ++ (e ∷ [])) p es cs (is_empty-append ds e) v.1
    ∙ ap (λ x. scan_fraction x p cs) (append_assoc ds (e ∷ []) es)

pub scan_fraction_start :
    (p : ℤ) (es cs : List ℕ)
    → AreDigits es
    → first_digit es ≢ 0
    → scan_fraction [] p (digit_codes es ++ cs) ≡ scan_fraction es p cs
scan_fraction_start p [] cs v h = absurd (h refl)
scan_fraction_start p (e ∷ es) cs v h =
    scan_fraction_step [] p e (digit_codes es ++ cs) v.0 (ground arith)
    ∙ scan_fraction_run (e ∷ []) p es cs refl v.1

-- Zeroes behind the point and before the first digit only move the point.
pub scan_fraction_zeroes :
    (n k : ℕ) (cs : List ℕ)
    → scan_fraction [] (negative_of n) (replicate k b'0' ++ cs)
      ≡ scan_fraction [] (negative_of (n + k)) cs
unfolding scan_fraction ◌-ℤ◌
scan_fraction_zeroes n zero cs = rw add-zero
scan_fraction_zeroes n (suc k) cs =
    ap (λ x. scan_fraction [] x (replicate k b'0' ++ cs)) (negative_of_suc n)
    ∙ scan_fraction_zeroes (n + 1) k cs
    ∙ ap (λ x. scan_fraction [] (negative_of x) cs) (omega arith)
