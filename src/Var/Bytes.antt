-- ===== src/Var/Bytes.antt =====
-- A value that is set from bytes: dpiVar_setFromBytes and dpiVar__setFromBytes of src/dpiVar.c, with
-- dpiVar__checkArraySize.
pub mod Copy
pub mod Stored
use alpha_odpi.Prelude.{
  ℕ, ◌*◌, ◌-◌, ◌^◌, Bool, true, false, not, ◌&&◌, ◌||◌, List, [], ◌∷◌, ◌++◌, Option, none, some,
  ◌==◌, ltb, leb, length, take, drop, set, get_or, if◌then◌else◌,
}
use alpha_odpi.Error.{
  Result, ok, err, dpi, ◌>>◌, fail_if, invalid_array_position, ptr_length_mismatch, not_supported,
  buffer_size_too_large, buffer_size_too_small,
}
use alpha_odpi.OracleType.{NativeType, bytes_value, lob_value}
use alpha_odpi.Var.Chunks.{
  Chunk, DynamicBytes, Memory, block_of, empty_chunk, bytes_of, allocate_dynamic_bytes,
}

-- `DPI_NUMBER_AS_TEXT_CHARS`
abbrev pub number_as_text_chars : ℕ
number_as_text_chars = 173

-- `DPI_MAX_VAR_BUFFER_SIZE`
abbrev pub max_var_buffer_size : ℕ
max_var_buffer_size = 1024 * 1024 * 1024 - 2

-- What the arrays of `dpiVarBuffer` have at one position, with the memory at `asBytes.ptr` and
-- `asBytes.length`; an array that is not allocated has none.
pub record Row : Type 0 where
  pub reference : Option ℕ
  pub dynamic_bytes : Option DynamicBytes
  pub actual_length : Option ℕ
  pub return_code : Option ℕ
  pub is_null : Bool
  pub memory : Option (List ℕ)
  pub value_length : ℕ

-- `dpiVar`, with its buffer, and whether its environment is one of UTF-16.
pub record Var : Type 0 where
  pub native_type : NativeType
  pub type_size_in_bytes : ℕ
  pub size_in_bytes : ℕ
  pub has_temp_buffer : Bool
  pub is_utf16 : Bool
  pub max_array_size : ℕ
  pub rows : List Row

abbrev pub is_given : {A : Type 0} → Option A → Bool
is_given none = false
is_given (some a) = true

-- `validate the target can accept the input`
abbrev pub is_too_long : Var → Row → ℕ → Bool
is_too_long v r n =
    (v.has_temp_buffer && v.is_utf16 && ltb (number_as_text_chars * 2) n)
    || (v.has_temp_buffer && not v.is_utf16 && ltb number_as_text_chars n)
    || (not (is_given r.dynamic_bytes) && not v.has_temp_buffer && ltb v.size_in_bytes n)

-- `if (length > 0) memcpy(ptr, value, length);` Nothing can be written at no address.
abbrev pub copy_to : List ℕ → Option (List ℕ) → Option (List ℕ)
copy_to value none = none
copy_to value (some block) = some (value ++ drop (length value) block)

abbrev pub filled_chunk : List ℕ → Chunk → Chunk
filled_chunk value c = record c { memory = copy_to value c.memory; chunk_length = length value }

abbrev pub filled_bytes : List ℕ → DynamicBytes → DynamicBytes
filled_bytes value d = record d {
  num_chunks = 1;
  chunks = set d.chunks 0 (filled_chunk value (get_or d.chunks 0 empty_chunk));
}

abbrev pub with_dynamic : List ℕ → Row → DynamicBytes × Result (Unit {0}) → Row × Result (Unit {0})
with_dynamic value r (d, err e) = (record r { dynamic_bytes = some d }, err e)
with_dynamic value r (d, ok u) =
    let d' = filled_bytes value d in
    (
      record r {
        dynamic_bytes = some d';
        memory = (get_or d'.chunks 0 empty_chunk).memory;
        value_length = length value;
        is_null = false;
      },
      ok tt,
    )

-- What an array has after it is written at a position, if there is one.
abbrev pub if_allocated : Option ℕ → ℕ → Option ℕ
if_allocated none n = none
if_allocated (some old) n = some n

abbrev pub in_place : Var → List ℕ → Row → Row
in_place v value r = record r {
  value_length = length value;
  memory = copy_to value r.memory;
  actual_length =
      if v.type_size_in_bytes == 0
      then if_allocated r.actual_length (length value)
      else r.actual_length;
  return_code = if_allocated r.return_code 0;
  is_null = false;
}

abbrev pub into_buffer : Memory → Var → List ℕ → Row → Option DynamicBytes → Row × Result (Unit {0})
into_buffer m v value r (some d) = with_dynamic value r (allocate_dynamic_bytes m (length value) d)
into_buffer m v value r none = (in_place v value r, ok tt)

-- `dpiVar__setFromBytes` at one position; the parameter `set_lob` is `dpiLob__setFromBytes`.
abbrev pub set_value :
    (ℕ → List ℕ → Result (Unit {0}))
    → Memory
    → Var
    → List ℕ
    → Row
    → Option ℕ
    → Row × Result (Unit {0})
set_value set_lob m v value r (some lob) = (record r { is_null = false }, set_lob lob value)
set_value set_lob m v value r none =
    if is_too_long v r (length value)
    then (r, err (dpi buffer_size_too_small))
    else into_buffer m v value r r.dynamic_bytes

abbrev pub empty_row : Row
empty_row = record {
  reference = none;
  dynamic_bytes = none;
  actual_length = none;
  return_code = none;
  is_null = true;
  memory = none;
  value_length = 0;
}

abbrev pub at_row : Var → ℕ → Row × Result (Unit {0}) → Var × Result (Unit {0})
at_row v pos (r, result) = (record v { rows = set v.rows pos r }, result)

-- `dpiVar__checkArraySize`, after the checks of the handle.
abbrev pub check_array_size : Result (Unit {0}) → Var → ℕ → Result (Unit {0})
check_array_size started v pos =
    started >> fail_if (leb v.max_array_size pos) invalid_array_position

abbrev pub takes_bytes : NativeType → Bool
takes_bytes bytes_value = true
takes_bytes lob_value = true
takes_bytes other = false

abbrev pub check_bytes : Result (Unit {0}) → Var → ℕ → Option (List ℕ) → ℕ → Result (Unit {0})
check_bytes started v pos value n =
    check_array_size started v pos
    >> fail_if (not (is_given value) && ltb 0 n) ptr_length_mismatch
    >> fail_if (not (takes_bytes v.native_type)) not_supported
    >> fail_if (ltb max_var_buffer_size n) buffer_size_too_large

abbrev pub if_checked : Result (Unit {0}) → Var → Var × Result (Unit {0}) → Var × Result (Unit {0})
if_checked (err e) v x = (v, err e)
if_checked (ok u) v x = x

-- `dpiVar_setFromBytes`
unfoldable pub set_from_bytes :
    (ℕ → List ℕ → Result (Unit {0}))
    → Memory
    → Result (Unit {0})
    → Var
    → ℕ
    → Option (List ℕ)
    → ℕ
    → Var × Result (Unit {0})
set_from_bytes set_lob m started v pos value n =
    let r = get_or v.rows pos empty_row in
    if_checked (check_bytes started v pos value n) v
      (at_row v pos (set_value set_lob m v (bytes_of value n) r r.reference))
