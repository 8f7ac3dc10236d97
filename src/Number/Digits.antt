-- ===== src/Number/Digits.antt =====
-- The parts into which a number is split on its way between text and the bytes of an OCINumber.
use alpha_odpi.Prelude.{ℕ, ◌≤◌, ◌<◌, ◌≢◌, Bool, List, [], ◌∷◌, length, true, false}
use alpha_odpi.Prelude.Int.{ℤ, pos, negsuc, ◌≤ℤ◌}

-- `DPI_NUMBER_AS_TEXT_CHARS`, `DPI_NUMBER_MAX_DIGITS`, `DPI_OCI_NUMBER_SIZE`
abbrev pub number_as_text_chars : ℕ
number_as_text_chars = 173

abbrev pub number_max_digits : ℕ
number_max_digits = 40

abbrev pub oci_number_size : ℕ
oci_number_size = 22

-- `*isNegative`, `*decimalPointIndex` and the first `*numDigits` entries of `digits`.
pub record Decimal : Type 0 where
  pub is_negative : Bool
  pub decimal_point_index : ℤ
  pub digits : List ℕ

abbrev pub is_empty {ℓ} : {A : Type ℓ} → List A → Bool
is_empty [] = true
is_empty (x ∷ xs) = false

abbrev pub AreDigits : List ℕ → Type 0
AreDigits [] = Unit
AreDigits (d ∷ ds) = (d < 10) × AreDigits ds

abbrev pub first_digit : List ℕ → ℕ
first_digit [] = 0
first_digit (d ∷ ds) = d

abbrev pub last_digit : List ℕ → ℕ
last_digit [] = 0
last_digit (d ∷ []) = d
last_digit (d ∷ e ∷ ds) = last_digit (e ∷ ds)

-- Digits with no zero at either end, so none at all for the value zero is left out.
pub record IsNormal (d : Decimal) : Type 0 where
  pub decimal : AreDigits d.digits
  pub leading : first_digit d.digits ≢ 0
  pub trailing : last_digit d.digits ≢ 0
  pub precise : length d.digits ≤ number_max_digits
  pub lower : negsuc 128 ≤ℤ d.decimal_point_index
  pub upper : d.decimal_point_index ≤ℤ pos 126
