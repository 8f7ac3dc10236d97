-- ===== src/OracleType/Lookup.antt =====
-- Which types `dpiOracleType__getFromNum` of src/dpiOracleType.c finds.
use alpha_odpi.Prelude.{
  ℕ, zero, suc, ◌+◌, ◌-◌, ◌≤◌, ◌<◌, ◌≡◌, refl, ◌⊎◌, inl, inr, Bool, true, false, List, [], ◌∷◌,
  length, arith, ltb, ◌==◌, if◌then◌else◌, Bool-cases, ◌&&◌, ◌++◌, ap,
}
use alpha_odpi.Error.{Result, ok, err, dpi, invalid_oracle_type}
use alpha_odpi.OracleType.{OracleType}
use alpha_odpi.OracleType.Codes.{oracle_type_none, oracle_type_max}
use alpha_odpi.OracleType.Plain.{plain_types}
use alpha_odpi.OracleType.Structured.{structured_types}
use alpha_odpi.OracleType.Table.{all_oracle_types, zero_type, entry, get_from_num}

-- The entries stand in the order of their numbers, the first of which is `k`.
abbrev in_order : ℕ → List OracleType → Bool
in_order k [] = true
in_order k (t ∷ ts) = t.oracle_type_num == k && in_order (k + 1) ts

entry-num :
    (k i : ℕ) (ts us : List OracleType)
    → in_order k ts ≡ true
    → i < length ts
    → (t : OracleType) × (entry (ts ++ us) i ≡ ok t) × (t.oracle_type_num ≡ k + i)
unfolding entry
entry-num k i [] us h b = absurd (omega arith)
entry-num k zero (t ∷ ts) us h b = (t, refl, ground arith)
entry-num k (suc i) (t ∷ ts) us h b =
    let (u, f, g) = entry-num (k + 1) i ts us (ground arith) (omega arith) in (u, f, omega arith)

abbrev named_types : List OracleType
named_types = plain_types ++ structured_types

in_order-named_types : in_order (oracle_type_none + 1) named_types ≡ true
in_order-named_types = refl

get_from_num_within :
    (n : ℕ)
    → oracle_type_none < n
    → n < oracle_type_max
    → get_from_num n ≡ entry all_oracle_types (n - oracle_type_none - 1)
unfolding get_from_num
get_from_num_within n h k =
    let within : (ltb oracle_type_none n && ltb n oracle_type_max) ≡ true = ground arith in
    ap
      (λ b.
        if b
        then entry all_oracle_types (n - oracle_type_none - 1)
        else err (dpi invalid_oracle_type))
      within

get_from_num_outside :
    (n : ℕ)
    → (n ≤ oracle_type_none) ⊎ (oracle_type_max ≤ n)
    → get_from_num n ≡ err (dpi invalid_oracle_type)
unfolding get_from_num
get_from_num_outside n h =
    let outside : (ltb oracle_type_none n && ltb n oracle_type_max) ≡ false = ground arith in
    ap
      (λ b.
        if b
        then entry all_oracle_types (n - oracle_type_none - 1)
        else err (dpi invalid_oracle_type))
      outside

-- What a number gives.
pub data Finds (n : ℕ) : Result OracleType → Type 0 where
  named :
      (t : OracleType)
      → oracle_type_none < n
      → n + 1 < oracle_type_max
      → t.oracle_type_num ≡ n
      → Finds n (ok t)
  unnamed : n + 1 ≡ oracle_type_max → Finds n (ok zero_type)
  invalid : (n ≤ oracle_type_none) ⊎ (oracle_type_max ≤ n) → Finds n (err (dpi invalid_oracle_type))

-- Of any number: between DPI_ORACLE_TYPE_NONE and DPI_ORACLE_TYPE_MAX, but for the last, it finds
-- the entry of the table that bears it; the last, DPI_ORACLE_TYPE_JSON_ID, finds an entry of
-- zeroes; any other number is an error.
pub get_from_num-Finds : (n : ℕ) → Finds n (get_from_num n)
unfolding entry
get_from_num-Finds n = elim (Bool-cases (ltb oracle_type_none n)) [
  | inl a ↦ elim (Bool-cases (ltb (n + 1) oracle_type_max)) [
    | inl b ↦
        let (t, e, f) =
          entry-num (oracle_type_none + 1) (n - oracle_type_none - 1) named_types (zero_type ∷ [])
            in_order-named_types (ground arith) in
        rw (get_from_num_within n (ground arith) (ground arith), e)
          (named t (ground arith) (ground arith) (ground arith))
    | inr b ↦ elim (Bool-cases (ltb n oracle_type_max)) [
      | inl c ↦
          let last : n - oracle_type_none - 1 ≡ 33 = ground arith in
          rw (get_from_num_within n (ground arith) (ground arith), last) (unnamed (ground arith))
      | inr c ↦ rw (get_from_num_outside n (inr (ground arith))) (invalid (inr (ground arith)))
    ]
  ]
  | inr a ↦ rw (get_from_num_outside n (inl (ground arith))) (invalid (inl (ground arith)))
]
