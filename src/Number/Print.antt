-- ===== src/Number/Print.antt =====
-- The characters that `dpiDataBuffer__fromOracleNumberAsText` of src/dpiData.c writes, by the
-- place of the decimal point.
use alpha_odpi.Prelude.{ℕ, ◌+◌, ◌≤◌, ◌<◌, ◌≡◌, ◌≢◌, refl, List, [], ◌∷◌, ◌++◌, length, arith}
use alpha_odpi.Prelude.Int.{ℤ, pos_part}
use alpha_odpi.Number.Scan.Runs.{digit_codes}
use alpha_odpi.Number.Text.{digit_chars}

digit_chars_behind :
    (point : ℤ) (i : ℕ) (ds : List ℕ) → pos_part point < i → digit_chars point i ds ≡ digit_codes ds
unfolding digit_chars
digit_chars_behind point i [] h = refl
digit_chars_behind point i (d ∷ ds) h =
    ground (arith, digit_chars_behind point (i + 1) ds (omega arith))

pub digit_chars_before :
    (point : ℤ) (i : ℕ) (ds : List ℕ)
    → i + length ds ≤ pos_part point
    → digit_chars point i ds ≡ digit_codes ds
unfolding digit_chars
digit_chars_before point i [] h = refl
digit_chars_before point i (d ∷ ds) h =
    ground (arith, digit_chars_before point (i + 1) ds (omega arith))

pub digit_chars_fraction :
    (point : ℤ) (ds : List ℕ) → pos_part point ≡ 0 → digit_chars point 0 ds ≡ digit_codes ds
unfolding digit_chars
digit_chars_fraction point [] h = refl
digit_chars_fraction point (d ∷ ds) h = ground (arith, digit_chars_behind point 1 ds (omega arith))

-- The point stands between the digits before it and those behind it.
pub digit_chars_split :
    (point : ℤ) (i : ℕ) (ds es : List ℕ)
    → 0 < pos_part point
    → i + length ds ≡ pos_part point
    → es ≢ []
    → digit_chars point i (ds ++ es) ≡ digit_codes ds ++ (b'.' ∷ digit_codes es)
unfolding digit_chars
digit_chars_split point i [] [] h e n = absurd (n refl)
digit_chars_split point i [] (x ∷ es) h e n =
    ground (arith, digit_chars_behind point (i + 1) es (omega arith))
digit_chars_split point i (d ∷ ds) es h e n =
    ground (arith, digit_chars_split point (i + 1) ds es h (omega arith) n)
