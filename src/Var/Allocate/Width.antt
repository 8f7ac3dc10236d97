-- ===== src/Var/Allocate/Width.antt =====
-- The width of the rows of a new variable, and their number: src/dpiVar.c.
use alpha_odpi.Prelude.{
  ℕ, ◌*◌, ◌%◌, ◌^◌, ◌≤◌, ◌<◌, max, ◌≡◌, refl, subst, inl, inr, Bool, true, false, not, ◌||◌, ◌&&◌,
  ◌==◌, ltb, if◌then◌else◌, arith, Bool-cases,
}
use alpha_odpi.Error.{
  Result, ok, err, ◌>>◌, ◌>>=◌, Ensures, before_ok, after_ok, fail_if-ok, Ensures-if_ok,
}
use alpha_odpi.OracleType.{OracleType, max_basic_buffer_size}
use alpha_odpi.OracleType.Codes.{sqlcs_implicit}
use alpha_odpi.OracleType.Table.{get_from_num}
use alpha_odpi.Var.Allocate.{
  Request, Surroundings, NewVar, validate, type_size, size_in_bytes_of, new_var, allocate_var,
}
use native.Mathlib.Nat.{mod-eq_of_lt}

-- The bytes that a unit of the size may take.
abbrev pub unit_size : Surroundings → Request → OracleType → ℕ
unit_size e r t =
    if r.size_is_bytes || not t.is_character_data
    then 1
    else (if t.charset_form == sqlcs_implicit
        then e.max_bytes_per_character
        else e.nmax_bytes_per_character)

-- The bytes that a row takes: the size of the type, or as many units as are asked for, but one at least.
abbrev pub width : Surroundings → Request → OracleType → ℕ
width e r t =
    let fixed = type_size e.platform_size t.size_in_bytes in
    if fixed == 0 then max 1 r.size * unit_size e r t else fixed

-- A row has its width, or is bound dynamically as it is too wide.
pub data RowsFit (n : ℕ) (v : NewVar) : Type 0 where
  within : v.is_dynamic ≡ false → v.row_size ≡ n → n ≤ max_basic_buffer_size → RowsFit n v
  beyond : v.is_dynamic ≡ true → v.row_size ≡ 0 → max_basic_buffer_size < n → RowsFit n v

pub record Made (e : Surroundings) (r : Request) (v : NewVar) : Type 0 where
  pub of_type : get_from_num r.oracle_type_num ≡ ok v.var_type
  pub some_rows : 0 < v.max_rows
  pub all_rows : v.max_rows ≡ r.max_array_size
  pub rows_used : v.actual_rows ≤ v.max_rows
  pub array : r.is_array ≡ true → v.var_type.can_be_in_array ≡ true
  pub fit : RowsFit (width e r v.var_type) v

can_be : (is_array can : Bool) → (is_array && not can) ≡ false → is_array ≡ true → can ≡ true
can_be true true h a = refl
can_be true false h a = cc
can_be false can h a = cc

at_least_one : (n : ℕ) → (if n == 0 then 1 else n) ≡ max 1 n
at_least_one n = elim (Bool-cases (n == 0)) [
  | inl t ↦ rw t (ground arith)
  | inr f ↦ rw f (ground arith)
]

module _ (e : Surroundings) (r : Request) (few : max 1 r.size * e.max_bytes_per_character < 2 ^ 32)
    (nfew : max 1 r.size * e.nmax_bytes_per_character < 2 ^ 32) where
  units :
      (is_one is_implicit : Bool)
      → (if is_one
          then max 1 r.size
          else (if is_implicit
              then max 1 r.size * e.max_bytes_per_character % 2 ^ 32
              else max 1 r.size * e.nmax_bytes_per_character % 2 ^ 32))
        ≡ max 1 r.size
          * (if is_one
              then 1
              else (if is_implicit then e.max_bytes_per_character else e.nmax_bytes_per_character))
  units true is_implicit = omega arith
  units false true = mod-eq_of_lt few
  units false false = mod-eq_of_lt nfew

  size_in_bytes_of-width : (t : OracleType) → size_in_bytes_of e r t ≡ width e r t
  unfolding size_in_bytes_of
  size_in_bytes_of-width t = elim (Bool-cases (type_size e.platform_size t.size_in_bytes == 0)) [
    | inl z ↦
        rw (z, at_least_one r.size)
          (units (r.size_is_bytes || not t.is_character_data) (t.charset_form == sqlcs_implicit))
    | inr n ↦ rw n refl
  ]

  new_var-RowsFit : (t : OracleType) (n : ℕ) → RowsFit n (new_var r t n)
  new_var-RowsFit t n = elim (Bool-cases (ltb max_basic_buffer_size n)) [
    | inl b ↦ beyond b (rw b refl) (ground arith)
    | inr b ↦ within b (rw b refl) (ground arith)
  ]

  used_rows : (b : Bool) (n : ℕ) → (if b then 0 else n) ≤ n
  used_rows true n = omega arith
  used_rows false n = omega arith

  new_var-Made :
      (t : OracleType)
      → get_from_num r.oracle_type_num ≡ ok t
      → validate e r t ≡ ok tt
      → Made e r (new_var r t (size_in_bytes_of e r t))
  new_var-Made t f valid =
      let fitting = before_ok _ _ (before_ok _ _ valid) in
      let some_rows : (r.max_array_size == 0) ≡ false = fail_if-ok _ _ (before_ok _ _ fitting) in
      let in_array : (r.is_array && not t.can_be_in_array) ≡ false =
        fail_if-ok _ _ (after_ok _ _ fitting) in
      record {
        of_type = f;
        some_rows = ground arith;
        all_rows = refl;
        rows_used = used_rows r.is_array r.max_array_size;
        array = λ a. can_be r.is_array t.can_be_in_array in_array a;
        fit =
            subst (λ n. RowsFit n (new_var r t (size_in_bytes_of e r t))) (size_in_bytes_of-width t)
              (new_var-RowsFit t (size_in_bytes_of e r t));
      }

  -- For a request whose size, one at least, times the bytes of a character of either character set
  -- is below 2^32: a variable that is made has the type that is asked for, at least one row and as
  -- many as are asked for, of which no more are counted as used, and is an array only if its type
  -- can be in one. Its rows have the size of the type, or as many units as are asked for, each of
  -- the bytes that it may take; if that is more than 32767, the variable is dynamic and its rows
  -- have size 0.
  pub allocate_var-Made : Ensures (Made e r) (allocate_var e r)
  unfolding allocate_var
  allocate_var-Made = typed (get_from_num r.oracle_type_num) refl
    where
      typed :
          (x : Result OracleType)
          → get_from_num r.oracle_type_num ≡ x
          → Ensures (Made e r) (
              x >>= (λ t.
                validate e r t
                >> e.handle_alloc
                >> e.object_type_check
                >> e.init_buffer
                >> ok (new_var r t (size_in_bytes_of e r t))))
      typed (err x) f = tt
      typed (ok t) f =
          Ensures-if_ok (Made e r)
            (validate e r t >> e.handle_alloc >> e.object_type_check >> e.init_buffer)
            (ok (new_var r t (size_in_bytes_of e r t)))
            (λ m. new_var-Made t f (
              before_ok _ e.handle_alloc
                (before_ok _ e.object_type_check (before_ok _ e.init_buffer m))))
