-- ===== src/Var/Allocate.antt =====
-- How a variable is made: dpiVar__allocate and dpiVar__validateTypes of src/dpiVar.c, and
-- dpiVar_setNumElementsInArray.
pub mod Width
use alpha_odpi.Prelude.{
  ℕ, ◌*◌, ◌%◌, ◌^◌, Bool, true, false, not, ◌&&◌, ◌||◌, ◌==◌, ltb, if◌then◌else◌,
}
use alpha_odpi.Error.{
  Result, ok, err, ◌>>◌, ◌>>=◌, fail_if, array_size_zero, not_supported, unhandled_conversion,
  array_size_too_small,
}
use alpha_odpi.Version.{VersionInfo, check_client_version}
use alpha_odpi.OracleType.{
  NativeType, int64_value, uint64_value, float_value, double_value, bytes_value, timestamp_value,
  interval_ds_value, interval_ym_value, lob_value, object_value, stmt_value, boolean_value,
  rowid_value, json_value, json_object_value, json_array_value, null_value, vector_value, no_value,
  SizedType, BufferSize, variable, bytes, size_of, OracleType, max_basic_buffer_size,
}
use alpha_odpi.OracleType.Codes.{
  oracle_type_date, oracle_type_timestamp, oracle_type_timestamp_tz, oracle_type_timestamp_ltz,
  oracle_type_number, oracle_type_boolean, sqlcs_implicit,
}
use alpha_odpi.OracleType.Table.{get_from_num}

-- What is asked for.
pub record Request : Type 0 where
  pub oracle_type_num : ℕ
  pub native_type : NativeType
  pub max_array_size : ℕ
  pub size : ℕ
  pub size_is_bytes : Bool
  pub is_array : Bool

-- What is outside: the sizes that the platform tells, the environment, and what else may fail.
pub record Surroundings : Type 0 where
  pub platform_size : SizedType → ℕ
  pub client_version : VersionInfo
  pub max_bytes_per_character : ℕ
  pub nmax_bytes_per_character : ℕ
  pub handle_alloc : Result (Unit {0})
  pub object_type_check : Result (Unit {0})
  pub init_buffer : Result (Unit {0})

-- `dpiVar` after its basic initialization.
pub record NewVar : Type 0 where
  pub var_type : OracleType
  pub var_native_type : NativeType
  pub max_rows : ℕ
  pub actual_rows : ℕ
  pub row_size : ℕ
  pub is_dynamic : Bool
  pub needs_pre_fetch : Bool
  pub is_array_var : Bool

-- The numbers of `dpiNativeTypeNum`.
abbrev pub native_type_num : NativeType → ℕ
native_type_num int64_value = 3000
native_type_num uint64_value = 3001
native_type_num float_value = 3002
native_type_num double_value = 3003
native_type_num bytes_value = 3004
native_type_num timestamp_value = 3005
native_type_num interval_ds_value = 3006
native_type_num interval_ym_value = 3007
native_type_num lob_value = 3008
native_type_num object_value = 3009
native_type_num stmt_value = 3010
native_type_num boolean_value = 3011
native_type_num rowid_value = 3012
native_type_num json_value = 3013
native_type_num json_object_value = 3014
native_type_num json_array_value = 3015
native_type_num null_value = 3016
native_type_num vector_value = 3017
native_type_num no_value = 0

abbrev pub is_double : NativeType → Bool
is_double double_value = true
is_double other = false

abbrev pub is_number_value : NativeType → Bool
is_number_value int64_value = true
is_number_value uint64_value = true
is_number_value bytes_value = true
is_number_value other = false

-- `dpiVar__validateTypes`
abbrev pub validate_types : OracleType → NativeType → Result (Unit {0})
validate_types t native =
    let n = t.oracle_type_num in
    let is_time =
      n == oracle_type_date
      || n == oracle_type_timestamp
      || n == oracle_type_timestamp_tz
      || n == oracle_type_timestamp_ltz in
    fail_if (not (is_time && is_double native || n == oracle_type_number && is_number_value native))
      unhandled_conversion

-- `validate arguments`
abbrev pub validate : Surroundings → Request → OracleType → Result (Unit {0})
validate e r t =
    fail_if (r.max_array_size == 0) array_size_zero
    >> fail_if (r.is_array && not t.can_be_in_array) not_supported
    >> (if r.oracle_type_num == oracle_type_boolean
        then check_client_version e.client_version 12 1
        else ok tt)
    >> (if native_type_num r.native_type == native_type_num t.default_native_type
        then ok tt
        else validate_types t r.native_type)

-- `type->sizeInBytes`, which is 0 for a size that varies.
abbrev pub type_size : (SizedType → ℕ) → BufferSize → ℕ
type_size platform_size variable = 0
type_size platform_size (bytes n) = n
type_size platform_size (size_of t) = platform_size t

-- `calculate size in bytes`
unfoldable pub size_in_bytes_of : Surroundings → Request → OracleType → ℕ
size_in_bytes_of e r t =
    let size = if r.size == 0 then 1 else r.size in
    let fixed = type_size e.platform_size t.size_in_bytes in
    if not (fixed == 0)
    then fixed
    else (if r.size_is_bytes || not t.is_character_data
        then size
        else (if t.charset_form == sqlcs_implicit
            then size * e.max_bytes_per_character % 2 ^ 32
            else size * e.nmax_bytes_per_character % 2 ^ 32))

-- `basic initialization`
abbrev pub new_var : Request → OracleType → ℕ → NewVar
new_var r t n =
    let dynamic = ltb max_basic_buffer_size n in
    record {
      var_type = t;
      var_native_type = r.native_type;
      max_rows = r.max_array_size;
      actual_rows = if r.is_array then 0 else r.max_array_size;
      row_size = if dynamic then 0 else n;
      is_dynamic = dynamic;
      needs_pre_fetch = dynamic;
      is_array_var = r.is_array;
    }

-- `dpiVar__allocate`, but for the references that are counted.
unfoldable pub allocate_var : Surroundings → Request → Result NewVar
unfolding get_from_num check_client_version size_in_bytes_of
allocate_var e r = get_from_num r.oracle_type_num >>= (λ t.
    validate e r t
    >> e.handle_alloc
    >> e.object_type_check
    >> e.init_buffer
    >> ok (new_var r t (size_in_bytes_of e r t)))

-- `dpiVar_setNumElementsInArray`, after the checks of the handle.
unfoldable pub set_num_elements_in_array :
    Result (Unit {0}) → NewVar → ℕ → NewVar × Result (Unit {0})
set_num_elements_in_array (err e) v n = (v, err e)
set_num_elements_in_array (ok u) v n =
    if ltb v.max_rows n
    then (v, fail_if true array_size_too_small)
    else (record v { actual_rows = n }, ok tt)
