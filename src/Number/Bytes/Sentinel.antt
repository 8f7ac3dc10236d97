-- ===== src/Number/Bytes/Sentinel.antt =====
-- The byte 102 behind the mantissa of a negative number, written and dropped.
use alpha_odpi.Prelude.{
  zero, suc, ℕ, ◌*◌, ◌<◌, ◌≡◌, refl, Bool, true, false, List, [], ◌∷◌, ◌++◌, length, arith, ap,
  append-nil,
}
use alpha_odpi.Number.Digits.{AreDigits}
use alpha_odpi.Number.Encode.{mantissa, sentinel}
use alpha_odpi.Number.Decode.{drop_sentinel}
use alpha_odpi.Number.Bytes.Mantissa.{mantissa_byte-IsPair}

pub length-mantissa :
    (negative : Bool) (n : ℕ) (s : List ℕ)
    → length s ≡ 2 * n
    → length (mantissa negative false n s) ≡ n
unfolding mantissa
length-mantissa negative zero s h = refl
length-mantissa negative (suc n) [] h = absurd (omega arith)
length-mantissa negative (suc n) (a ∷ []) h = absurd (omega arith)
length-mantissa negative (suc n) (a ∷ b ∷ s) h =
    omega (arith, length-mantissa negative n s (omega arith))

abbrev AreBelow : ℕ → List ℕ → Type 0
AreBelow k [] = Unit
AreBelow k (b ∷ bs) = (b < k) × AreBelow k bs

mantissa-AreBelow : (n : ℕ) (s : List ℕ) → AreDigits s → AreBelow 102 (mantissa true false n s)
unfolding mantissa
mantissa-AreBelow zero s v = tt
mantissa-AreBelow (suc n) [] v = tt
mantissa-AreBelow (suc n) (a ∷ []) v = tt
mantissa-AreBelow (suc n) (a ∷ b ∷ s) v =
    ((mantissa_byte-IsPair true a b v.0 v.1.0).no_sentinel refl, mantissa-AreBelow n s v.1.1)

drop_sentinel_below : (bs : List ℕ) → AreBelow 102 bs → drop_sentinel true bs ≡ bs
drop_sentinel_below [] v = refl
drop_sentinel_below (b ∷ []) v = ground arith
drop_sentinel_below (b ∷ c ∷ bs) v = ap (◌∷◌ b) (drop_sentinel_below (c ∷ bs) v.1)

drop_sentinel_positive : (bs : List ℕ) → drop_sentinel false bs ≡ bs
drop_sentinel_positive [] = refl
drop_sentinel_positive (b ∷ []) = refl
drop_sentinel_positive (b ∷ c ∷ bs) = ap (◌∷◌ b) (drop_sentinel_positive (c ∷ bs))

drop_sentinel_present : (bs : List ℕ) → drop_sentinel true (bs ++ (102 ∷ [])) ≡ bs
drop_sentinel_present [] = refl
drop_sentinel_present (b ∷ []) = refl
drop_sentinel_present (b ∷ c ∷ bs) = ap (◌∷◌ b) (drop_sentinel_present (c ∷ bs))

-- What is read is the mantissa, with or without the sentinel.
pub drop_sentinel-mantissa :
    (negative present : Bool) (n : ℕ) (s : List ℕ)
    → (present ≡ true → negative ≡ true)
    → AreDigits s
    → drop_sentinel negative (mantissa negative false n s ++ sentinel present)
      ≡ mantissa negative false n s
drop_sentinel-mantissa true true n s h v = drop_sentinel_present _
drop_sentinel-mantissa true false n s h v =
    rw append-nil (drop_sentinel_below _ (mantissa-AreBelow n s v))
drop_sentinel-mantissa false true n s h v = cc (h refl)
drop_sentinel-mantissa false false n s h v = rw append-nil (drop_sentinel_positive _)
