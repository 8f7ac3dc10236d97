-- ===== src/OracleType/Plain.antt =====
-- `dpiAllOracleTypes` of src/dpiOracleType.c, the entries up to the intervals.
use alpha_odpi.Prelude.{List, [], ◌∷◌, true, false}
use alpha_odpi.Number.Digits.{oci_number_size}
use alpha_odpi.OracleType.{
  OracleType, int64_value, float_value, double_value, bytes_value, timestamp_value,
  interval_ds_value, interval_ym_value, rowid_value, variable, bytes, size_of, int64_type,
  float_type, double_type, pointer_type, oci_date_type,
}
use alpha_odpi.OracleType.Codes.{
  oracle_type_varchar, oracle_type_nvarchar, oracle_type_char, oracle_type_nchar, oracle_type_rowid,
  oracle_type_raw, oracle_type_native_float, oracle_type_native_double, oracle_type_native_int,
  oracle_type_number, oracle_type_date, oracle_type_timestamp, oracle_type_timestamp_tz,
  oracle_type_timestamp_ltz, oracle_type_interval_ds, oracle_type_interval_ym, sqlt_chr, sqlt_int,
  sqlt_vnu, sqlt_bfloat, sqlt_bdouble, sqlt_bin, sqlt_afc, sqlt_rdd, sqlt_odt, sqlt_timestamp,
  sqlt_timestamp_tz, sqlt_interval_ym, sqlt_interval_ds, sqlt_timestamp_ltz, sqlcs_implicit,
  sqlcs_nchar,
}

abbrev pub plain_types : List OracleType
plain_types =
    record {
      oracle_type_num = oracle_type_varchar;
      default_native_type = bytes_value;
      oracle_type = sqlt_chr;
      charset_form = sqlcs_implicit;
      size_in_bytes = variable;
      is_character_data = true;
      can_be_in_array = true;
      requires_pre_fetch = false;
    }
    ∷ record {
      oracle_type_num = oracle_type_nvarchar;
      default_native_type = bytes_value;
      oracle_type = sqlt_chr;
      charset_form = sqlcs_nchar;
      size_in_bytes = variable;
      is_character_data = true;
      can_be_in_array = true;
      requires_pre_fetch = false;
    }
    ∷ record {
      oracle_type_num = oracle_type_char;
      default_native_type = bytes_value;
      oracle_type = sqlt_afc;
      charset_form = sqlcs_implicit;
      size_in_bytes = variable;
      is_character_data = true;
      can_be_in_array = true;
      requires_pre_fetch = false;
    }
    ∷ record {
      oracle_type_num = oracle_type_nchar;
      default_native_type = bytes_value;
      oracle_type = sqlt_afc;
      charset_form = sqlcs_nchar;
      size_in_bytes = variable;
      is_character_data = true;
      can_be_in_array = true;
      requires_pre_fetch = false;
    }
    ∷ record {
      oracle_type_num = oracle_type_rowid;
      default_native_type = rowid_value;
      oracle_type = sqlt_rdd;
      charset_form = sqlcs_implicit;
      size_in_bytes = size_of pointer_type;
      is_character_data = true;
      can_be_in_array = true;
      requires_pre_fetch = true;
    }
    ∷ record {
      oracle_type_num = oracle_type_raw;
      default_native_type = bytes_value;
      oracle_type = sqlt_bin;
      charset_form = sqlcs_implicit;
      size_in_bytes = variable;
      is_character_data = false;
      can_be_in_array = true;
      requires_pre_fetch = false;
    }
    ∷ record {
      oracle_type_num = oracle_type_native_float;
      default_native_type = float_value;
      oracle_type = sqlt_bfloat;
      charset_form = sqlcs_implicit;
      size_in_bytes = size_of float_type;
      is_character_data = false;
      can_be_in_array = true;
      requires_pre_fetch = false;
    }
    ∷ record {
      oracle_type_num = oracle_type_native_double;
      default_native_type = double_value;
      oracle_type = sqlt_bdouble;
      charset_form = sqlcs_implicit;
      size_in_bytes = size_of double_type;
      is_character_data = false;
      can_be_in_array = true;
      requires_pre_fetch = false;
    }
    ∷ record {
      oracle_type_num = oracle_type_native_int;
      default_native_type = int64_value;
      oracle_type = sqlt_int;
      charset_form = sqlcs_implicit;
      size_in_bytes = size_of int64_type;
      is_character_data = false;
      can_be_in_array = true;
      requires_pre_fetch = false;
    }
    ∷ record {
      oracle_type_num = oracle_type_number;
      default_native_type = double_value;
      oracle_type = sqlt_vnu;
      charset_form = sqlcs_implicit;
      size_in_bytes = bytes oci_number_size;
      is_character_data = false;
      can_be_in_array = true;
      requires_pre_fetch = false;
    }
    ∷ record {
      oracle_type_num = oracle_type_date;
      default_native_type = timestamp_value;
      oracle_type = sqlt_odt;
      charset_form = sqlcs_implicit;
      size_in_bytes = size_of oci_date_type;
      is_character_data = false;
      can_be_in_array = true;
      requires_pre_fetch = false;
    }
    ∷ record {
      oracle_type_num = oracle_type_timestamp;
      default_native_type = timestamp_value;
      oracle_type = sqlt_timestamp;
      charset_form = sqlcs_implicit;
      size_in_bytes = size_of pointer_type;
      is_character_data = false;
      can_be_in_array = true;
      requires_pre_fetch = false;
    }
    ∷ record {
      oracle_type_num = oracle_type_timestamp_tz;
      default_native_type = timestamp_value;
      oracle_type = sqlt_timestamp_tz;
      charset_form = sqlcs_implicit;
      size_in_bytes = size_of pointer_type;
      is_character_data = false;
      can_be_in_array = true;
      requires_pre_fetch = false;
    }
    ∷ record {
      oracle_type_num = oracle_type_timestamp_ltz;
      default_native_type = timestamp_value;
      oracle_type = sqlt_timestamp_ltz;
      charset_form = sqlcs_implicit;
      size_in_bytes = size_of pointer_type;
      is_character_data = false;
      can_be_in_array = true;
      requires_pre_fetch = false;
    }
    ∷ record {
      oracle_type_num = oracle_type_interval_ds;
      default_native_type = interval_ds_value;
      oracle_type = sqlt_interval_ds;
      charset_form = sqlcs_implicit;
      size_in_bytes = size_of pointer_type;
      is_character_data = false;
      can_be_in_array = true;
      requires_pre_fetch = false;
    }
    ∷ record {
      oracle_type_num = oracle_type_interval_ym;
      default_native_type = interval_ym_value;
      oracle_type = sqlt_interval_ym;
      charset_form = sqlcs_implicit;
      size_in_bytes = size_of pointer_type;
      is_character_data = false;
      can_be_in_array = true;
      requires_pre_fetch = false;
    }
    ∷ []
