-- ===== src/OracleType/Tests.antt =====
-- Runs of the lookups in the table of types, and the theorems at concrete codes.
use alpha_odpi.Prelude.{◌≡◌, refl, true, false}
use alpha_odpi.Error.{ok, err, dpi, invalid_oracle_type}
use alpha_odpi.OracleType.{OracleType, bytes_value, variable}
use alpha_odpi.OracleType.Table.{convert_from_oracle, get_from_num, zero_type}
use alpha_odpi.OracleType.Lookup.{Finds, get_from_num-Finds}

convert_nchar : convert_from_oracle 96 2 ≡ 2004
unfolding convert_from_oracle
convert_nchar = refl

-- `DPI_ORACLE_TYPE_JSON_ID`
find_json_id : get_from_num 2034 ≡ ok zero_type
unfolding get_from_num
find_json_id = refl

find_max : get_from_num 2035 ≡ err (dpi invalid_oracle_type)
unfolding get_from_num
find_max = refl

get_from_num-Finds_example : Finds 2010 (get_from_num 2010)
get_from_num-Finds_example = get_from_num-Finds 2010

-- The entry of the type of the number 2004, NCHAR.
abbrev nchar : OracleType
nchar = record {
  oracle_type_num = 2004;
  default_native_type = bytes_value;
  oracle_type = 96;
  charset_form = 2;
  size_in_bytes = variable;
  is_character_data = true;
  can_be_in_array = true;
  requires_pre_fetch = false;
}
