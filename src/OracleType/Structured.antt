-- ===== src/OracleType/Structured.antt =====
-- `dpiAllOracleTypes` of src/dpiOracleType.c, the entries behind the intervals.
use alpha_odpi.Prelude.{List, [], ◌∷◌, true, false, ◌+◌}
use alpha_odpi.OracleType.{
  OracleType, uint64_value, bytes_value, lob_value, object_value, stmt_value, boolean_value,
  rowid_value, json_value, json_object_value, json_array_value, vector_value, bytes, size_of,
  int_type, uint64_type, pointer_type, json_object_type, json_array_type, max_basic_buffer_size,
}
use alpha_odpi.OracleType.Codes.{
  oracle_type_clob, oracle_type_nclob, oracle_type_blob, oracle_type_bfile, oracle_type_stmt,
  oracle_type_boolean, oracle_type_object, oracle_type_long_varchar, oracle_type_long_raw,
  oracle_type_native_uint, oracle_type_json, oracle_type_json_object, oracle_type_json_array,
  oracle_type_urowid, oracle_type_long_nvarchar, oracle_type_xmltype, oracle_type_vector, sqlt_chr,
  sqlt_bin, sqlt_uin, sqlt_rdd, sqlt_nty, sqlt_clob, sqlt_blob, sqlt_bfile, sqlt_rset, sqlt_json,
  sqlt_vec, sqlt_bol, sqlcs_implicit, sqlcs_nchar,
}

abbrev pub structured_types : List OracleType
structured_types =
    record {
      oracle_type_num = oracle_type_clob;
      default_native_type = lob_value;
      oracle_type = sqlt_clob;
      charset_form = sqlcs_implicit;
      size_in_bytes = size_of pointer_type;
      is_character_data = true;
      can_be_in_array = false;
      requires_pre_fetch = true;
    }
    ∷ record {
      oracle_type_num = oracle_type_nclob;
      default_native_type = lob_value;
      oracle_type = sqlt_clob;
      charset_form = sqlcs_nchar;
      size_in_bytes = size_of pointer_type;
      is_character_data = true;
      can_be_in_array = false;
      requires_pre_fetch = true;
    }
    ∷ record {
      oracle_type_num = oracle_type_blob;
      default_native_type = lob_value;
      oracle_type = sqlt_blob;
      charset_form = sqlcs_implicit;
      size_in_bytes = size_of pointer_type;
      is_character_data = false;
      can_be_in_array = false;
      requires_pre_fetch = true;
    }
    ∷ record {
      oracle_type_num = oracle_type_bfile;
      default_native_type = lob_value;
      oracle_type = sqlt_bfile;
      charset_form = sqlcs_implicit;
      size_in_bytes = size_of pointer_type;
      is_character_data = false;
      can_be_in_array = false;
      requires_pre_fetch = true;
    }
    ∷ record {
      oracle_type_num = oracle_type_stmt;
      default_native_type = stmt_value;
      oracle_type = sqlt_rset;
      charset_form = sqlcs_implicit;
      size_in_bytes = size_of pointer_type;
      is_character_data = false;
      can_be_in_array = false;
      requires_pre_fetch = true;
    }
    ∷ record {
      oracle_type_num = oracle_type_boolean;
      default_native_type = boolean_value;
      oracle_type = sqlt_bol;
      charset_form = sqlcs_implicit;
      size_in_bytes = size_of int_type;
      is_character_data = false;
      can_be_in_array = false;
      requires_pre_fetch = false;
    }
    ∷ record {
      oracle_type_num = oracle_type_object;
      default_native_type = object_value;
      oracle_type = sqlt_nty;
      charset_form = sqlcs_implicit;
      size_in_bytes = size_of pointer_type;
      is_character_data = false;
      can_be_in_array = false;
      requires_pre_fetch = true;
    }
    ∷ record {
      oracle_type_num = oracle_type_long_varchar;
      default_native_type = bytes_value;
      oracle_type = sqlt_chr;
      charset_form = sqlcs_implicit;
      size_in_bytes = bytes (max_basic_buffer_size + 1);
      is_character_data = true;
      can_be_in_array = false;
      requires_pre_fetch = false;
    }
    ∷ record {
      oracle_type_num = oracle_type_long_raw;
      default_native_type = bytes_value;
      oracle_type = sqlt_bin;
      charset_form = sqlcs_implicit;
      size_in_bytes = bytes (max_basic_buffer_size + 1);
      is_character_data = false;
      can_be_in_array = false;
      requires_pre_fetch = false;
    }
    ∷ record {
      oracle_type_num = oracle_type_native_uint;
      default_native_type = uint64_value;
      oracle_type = sqlt_uin;
      charset_form = sqlcs_implicit;
      size_in_bytes = size_of uint64_type;
      is_character_data = false;
      can_be_in_array = true;
      requires_pre_fetch = false;
    }
    ∷ record {
      oracle_type_num = oracle_type_json;
      default_native_type = json_value;
      oracle_type = sqlt_json;
      charset_form = sqlcs_implicit;
      size_in_bytes = size_of pointer_type;
      is_character_data = false;
      can_be_in_array = false;
      requires_pre_fetch = true;
    }
    ∷ record {
      oracle_type_num = oracle_type_json_object;
      default_native_type = json_object_value;
      oracle_type = 0;
      charset_form = sqlcs_implicit;
      size_in_bytes = size_of json_object_type;
      is_character_data = false;
      can_be_in_array = false;
      requires_pre_fetch = false;
    }
    ∷ record {
      oracle_type_num = oracle_type_json_array;
      default_native_type = json_array_value;
      oracle_type = 0;
      charset_form = sqlcs_implicit;
      size_in_bytes = size_of json_array_type;
      is_character_data = false;
      can_be_in_array = false;
      requires_pre_fetch = false;
    }
    ∷ record {
      oracle_type_num = oracle_type_urowid;
      default_native_type = rowid_value;
      oracle_type = sqlt_rdd;
      charset_form = sqlcs_implicit;
      size_in_bytes = size_of pointer_type;
      is_character_data = true;
      can_be_in_array = true;
      requires_pre_fetch = true;
    }
    ∷ record {
      oracle_type_num = oracle_type_long_nvarchar;
      default_native_type = bytes_value;
      oracle_type = sqlt_chr;
      charset_form = sqlcs_nchar;
      size_in_bytes = bytes (max_basic_buffer_size + 1);
      is_character_data = true;
      can_be_in_array = false;
      requires_pre_fetch = false;
    }
    ∷ record {
      oracle_type_num = oracle_type_xmltype;
      default_native_type = bytes_value;
      oracle_type = sqlt_chr;
      charset_form = sqlcs_implicit;
      size_in_bytes = bytes (max_basic_buffer_size + 1);
      is_character_data = true;
      can_be_in_array = false;
      requires_pre_fetch = false;
    }
    ∷ record {
      oracle_type_num = oracle_type_vector;
      default_native_type = vector_value;
      oracle_type = sqlt_vec;
      charset_form = sqlcs_implicit;
      size_in_bytes = size_of pointer_type;
      is_character_data = false;
      can_be_in_array = false;
      requires_pre_fetch = true;
    }
    ∷ []
