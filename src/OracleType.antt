-- ===== src/OracleType.antt =====
-- src/dpiOracleType.c: the types that the library knows.
pub mod Codes
pub mod Plain
pub mod Structured
pub mod Table
pub mod Conversion
pub mod Lookup
mod Tests
use alpha_odpi.Prelude.{ℕ, ◌+◌, Bool}

-- `dpiNativeTypeNum`; `no_value` is 0, which is none of its names.
pub data NativeType : Type 0 where
  int64_value uint64_value float_value double_value bytes_value timestamp_value interval_ds_value
        interval_ym_value lob_value object_value stmt_value boolean_value rowid_value json_value
        json_object_value json_array_value null_value vector_value no_value :
      NativeType

-- The types of which the table takes the size, which the platform tells.
pub data SizedType : Type 0 where
  int_type int64_type uint64_type float_type double_type pointer_type oci_date_type json_object_type
        json_array_type :
      SizedType

-- The buffer of a value: its size varies, or is a number of bytes, or the size of a type.
pub data BufferSize : Type 0 where
  variable : BufferSize
  bytes : ℕ → BufferSize
  size_of : SizedType → BufferSize

-- `DPI_MAX_BASIC_BUFFER_SIZE`
abbrev pub max_basic_buffer_size : ℕ
max_basic_buffer_size = 32767

-- `dpiOracleType`
pub record OracleType : Type 0 where
  pub oracle_type_num : ℕ
  pub default_native_type : NativeType
  pub oracle_type : ℕ
  pub charset_form : ℕ
  pub size_in_bytes : BufferSize
  pub is_character_data : Bool
  pub can_be_in_array : Bool
  pub requires_pre_fetch : Bool
