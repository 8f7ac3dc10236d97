-- ===== src/Number/Bytes/Mantissa.antt =====
-- The mantissa, written and read.
use alpha_odpi.Prelude.{
  refl, zero, suc, ℕ, ◌<◌, ◌≡◌, Bool, true, false, arith, ◌/◌, ◌*◌, List, ◌++◌, ◌%◌, ◌+◌, ◌∷◌,
  length, if◌then◌else◌, [], ◌==◌, append-nil, suc, append_assoc, ◌∙◌, length-append,
}
use alpha_odpi.Number.Digits.{AreDigits, is_empty}
use alpha_odpi.Number.Encode.{mantissa, mantissa_byte}
use alpha_odpi.Number.Decode.{read_mantissa, high_digit, low_digit, base_100, Progress}
use alpha_odpi.Prelude.Int.{ℤ, ◌-ℤ◌, pos}

-- A byte is read as the pair of digits that it was made of.
pub record IsPair (negative : Bool) (a b byte : ℕ) : Type 0 where
  pub high : base_100 negative byte / 10 ≡ a
  pub low : base_100 negative byte % 10 ≡ b
  pub no_sentinel : negative ≡ true → byte < 102

pub mantissa_byte-IsPair :
    (negative : Bool) (a b : ℕ)
    → a < 10
    → b < 10
    → IsPair negative a b (mantissa_byte negative ((a * 10 + b) % 256))
unfolding mantissa_byte base_100
mantissa_byte-IsPair true a b h k = record {
  high = ground arith;
  low = ground arith;
  no_sentinel = λ _. ground arith;
}
mantissa_byte-IsPair false a b h k = record {
  high = ground arith;
  low = ground arith;
  no_sentinel = λ e. cc;
}

-- The digits, less a zero at the end.
abbrev pub trim : List ℕ → List ℕ
trim [] = []
trim (a ∷ []) = if a == 0 then [] else a ∷ []
trim (a ∷ b ∷ ds) = a ∷ trim (b ∷ ds)

pub record Reads (r : Progress) (ds : List ℕ) (point : ℤ) : Type 0 where
  pub all : r.digits ≡ ds
  pub place : r.decimal_point_index ≡ point

Reads-eq :
    {r : Progress} {ds es : List ℕ} {point : ℤ} → ds ≡ es → Reads r ds point → Reads r es point
Reads-eq e v = record { all = v.all ∙ e; place = v.place }

-- A digit of a pair that is neither the first nor the last.
high_digit_plain :
    (a : ℕ) (p : Progress)
    → a < 10
    → high_digit false a p ≡ record p { digits = p.digits ++ (a ∷ []) }
unfolding high_digit
high_digit_plain a p h = ground arith

low_digit_plain :
    (b : ℕ) (p : Progress) → low_digit false b p ≡ record p { digits = p.digits ++ (b ∷ []) }
unfolding low_digit
low_digit_plain b p = ground arith

low_digit_last :
    (b : ℕ) (p : Progress)
    → Reads (low_digit true b p) (p.digits ++ trim (b ∷ [])) p.decimal_point_index
unfolding low_digit
low_digit_last b p = ground (arith, append-nil p.digits)

shift :
    (ds : List ℕ) (b c : ℕ) (es : List ℕ)
    → ((ds ++ (b ∷ [])) ++ (c ∷ [])) ++ es ≡ ds ++ (b ∷ c ∷ es)
shift ds b c es = simp append_assoc

read_mantissa_step :
    (negative first : Bool) (byte : ℕ) (bytes : List ℕ) (p : Progress)
    → read_mantissa negative first (byte ∷ bytes) p
      ≡ read_mantissa negative false bytes (
          low_digit
            (is_empty bytes)
            (base_100 negative byte % 10)
            (high_digit first (base_100 negative byte / 10) p))
unfolding read_mantissa
read_mantissa_step negative first byte bytes p = refl

pub mantissa_step :
    (negative : Bool) (n a b : ℕ) (s : List ℕ)
    → mantissa negative false (suc n) (a ∷ b ∷ s)
      ≡ mantissa_byte negative ((a * 10 + b) % 256) ∷ mantissa negative false n s
unfolding mantissa
mantissa_step negative n a b s = refl

-- A pair of digits that is not the first, read behind the digits before it.
read_pair :
    (negative : Bool) (n a b : ℕ) (s : List ℕ) (p : Progress)
    → a < 10
    → b < 10
    → read_mantissa negative false (mantissa negative false (suc n) (a ∷ b ∷ s)) p
      ≡ read_mantissa negative false (mantissa negative false n s) (
          low_digit
            (is_empty (mantissa negative false n s))
            b
            (record p { digits = p.digits ++ (a ∷ []) }))
read_pair negative n a b s p h k =
    let pair = mantissa_byte-IsPair negative a b h k in
    rw (
      mantissa_step negative n a b s,
      read_mantissa_step,
      pair.high,
      pair.low,
      high_digit_plain a _ h,
    )

-- From the second digit of a pair on.
low_digit-Reads :
    (negative : Bool) (n b : ℕ) (s : List ℕ) (p : Progress)
    → length s ≡ 2 * n
    → AreDigits s
    → Reads
        (read_mantissa negative false
          (mantissa negative false n s)
          (low_digit (is_empty (mantissa negative false n s)) b p))
        (p.digits ++ trim (b ∷ s))
        p.decimal_point_index
unfolding read_mantissa mantissa
low_digit-Reads negative zero b [] p h v = low_digit_last b p
low_digit-Reads negative zero b (c ∷ s) p h v = absurd (omega arith)
low_digit-Reads negative (suc n) b [] p h v = absurd (omega arith)
low_digit-Reads negative (suc n) b (c ∷ []) p h v = absurd (omega arith)
low_digit-Reads negative (suc n) b (c ∷ d ∷ s) p h v =
    let q : Progress = record p { digits = (p.digits ++ (b ∷ [])) ++ (c ∷ []) } in
    rw
      (
        mantissa_step negative n c d s,
        low_digit_plain b p,
        ← mantissa_step negative n c d s,
        read_pair negative n c d s _ v.0 v.1.0,
      )
      (Reads-eq (shift p.digits b c (trim (d ∷ s)))
        (low_digit-Reads negative n d s q (omega arith) v.1.1))

abbrev pub start : ℕ → ℤ → Progress
start k point = record { num_digits = k; decimal_point_index = point; digits = [] }

high_digit_first :
    (a k : ℕ) (point : ℤ)
    → a < 10
    → (high_digit true a (start k point)).digits ≡ (if a == 0 then [] else a ∷ [])
unfolding high_digit
high_digit_first a k point h = ground arith

high_digit_place :
    (a k : ℕ) (point : ℤ)
    → a < 10
    → (high_digit true a (start k point)).decimal_point_index
      ≡ (if a == 0 then point -ℤ pos 1 else point)
unfolding high_digit
high_digit_place a k point h = ground arith

-- The digits that are read from the pairs, without a zero at either end of them.
pub read_mantissa-Reads :
    (negative : Bool) (n a b k : ℕ) (s : List ℕ) (point : ℤ)
    → length s ≡ 2 * n
    → AreDigits (a ∷ b ∷ s)
    → Reads
        (read_mantissa negative true (mantissa negative false (suc n) (a ∷ b ∷ s)) (start k point))
        ((if a == 0 then [] else a ∷ []) ++ trim (b ∷ s))
        (if a == 0 then point -ℤ pos 1 else point)
read_mantissa-Reads negative n a b k s point h v =
    let pair = mantissa_byte-IsPair negative a b v.0 v.1.0 in
    let r = low_digit-Reads negative n b s (high_digit true a (start k point)) h v.1.1 in
    rw
      (
        mantissa_step negative n a b s,
        read_mantissa_step,
        pair.high,
        pair.low,
        ← high_digit_first a k point v.0,
        ← high_digit_place a k point v.0,
      )
      r

-- `*numDigits` against the digits written, with `n` bytes to come.
high_digit_count :
    (first : Bool) (digit n : ℕ) (p : Progress)
    → p.num_digits ≡ length p.digits + 2 * suc n
    → (high_digit first digit p).num_digits ≡ length (high_digit first digit p).digits + 1 + 2 * n
unfolding high_digit
high_digit_count first digit n p h =
    ground (arith, length-append p.digits (digit ∷ []), length-append p.digits (1 ∷ 0 ∷ []))

low_digit_count :
    (last : Bool) (digit n : ℕ) (p : Progress)
    → p.num_digits ≡ length p.digits + 1 + 2 * n
    → (low_digit last digit p).num_digits ≡ length (low_digit last digit p).digits + 2 * n
unfolding low_digit
low_digit_count last digit n p h = ground (arith, length-append p.digits (digit ∷ []))

-- The count that the loop keeps is in the end the number of digits that it has written, whatever
-- the bytes.
pub read_mantissa_count :
    (negative first : Bool) (bytes : List ℕ) (p : Progress)
    → p.num_digits ≡ length p.digits + 2 * length bytes
    → (read_mantissa negative first bytes p).num_digits
      ≡ length (read_mantissa negative first bytes p).digits
unfolding read_mantissa
read_mantissa_count negative first [] p h = omega arith
read_mantissa_count negative first (byte ∷ bytes) p h = read_mantissa_count negative false bytes _ (
    low_digit_count (is_empty bytes) _ (length bytes) _
      (high_digit_count first _ (length bytes) p h))
