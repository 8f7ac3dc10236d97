-- ===== src/OracleType/Table.antt =====
-- `dpiOracleType__convertFromOracle` and `dpiOracleType__getFromNum` of src/dpiOracleType.c.
use alpha_odpi.Prelude.{
  ℕ, zero, suc, ◌-◌, false, ◌&&◌, List, [], ◌∷◌, ◌++◌, ltb, ◌==◌, if◌then◌else◌,
}
use alpha_odpi.Error.{Result, ok, err, dpi, invalid_oracle_type}
use alpha_odpi.OracleType.{OracleType, no_value, variable}
use alpha_odpi.OracleType.Plain.{plain_types}
use alpha_odpi.OracleType.Structured.{structured_types}
use alpha_odpi.OracleType.Codes.{
  sqlcs_nchar, oracle_type_none, oracle_type_max, oracle_type_varchar, oracle_type_nvarchar,
  oracle_type_char, oracle_type_nchar, oracle_type_rowid, oracle_type_raw, oracle_type_native_float,
  oracle_type_native_double, oracle_type_native_int, oracle_type_number, oracle_type_date,
  oracle_type_timestamp, oracle_type_timestamp_tz, oracle_type_timestamp_ltz,
  oracle_type_interval_ds, oracle_type_interval_ym, oracle_type_clob, oracle_type_nclob,
  oracle_type_blob, oracle_type_bfile, oracle_type_stmt, oracle_type_boolean, oracle_type_object,
  oracle_type_long_varchar, oracle_type_long_raw, oracle_type_json, oracle_type_vector, sqlt_chr,
  sqlt_num, sqlt_int, sqlt_flt, sqlt_vnu, sqlt_pdn, sqlt_lng, sqlt_vcs, sqlt_dat, sqlt_bfloat,
  sqlt_bdouble, sqlt_bin, sqlt_lbi, sqlt_lvb, sqlt_afc, sqlt_ibfloat, sqlt_ibdouble, sqlt_rdd,
  sqlt_nty, sqlt_clob, sqlt_blob, sqlt_bfile, sqlt_rset, sqlt_json, sqlt_nco, sqlt_vec, sqlt_odt,
  sqlt_date, sqlt_timestamp, sqlt_timestamp_tz, sqlt_interval_ym, sqlt_interval_ds,
  sqlt_timestamp_ltz, oci_typecode_smallint, sqlt_rec, sqlt_bol, oci_typecode_rowid,
  oci_typecode_long, oci_typecode_long_raw, oci_typecode_binary_integer, oci_typecode_pls_integer,
}

-- What a case of the `switch` returns for a character set form.
abbrev pub always : ℕ → ℕ → ℕ
always n form = n

abbrev pub by_form : ℕ → ℕ → ℕ → ℕ
by_form national n form = if form == sqlcs_nchar then national else n

-- The cases, each with what it returns.
abbrev pub conversions : List (ℕ × (ℕ → ℕ))
conversions =
    (sqlt_chr, by_form oracle_type_nvarchar oracle_type_varchar)
    ∷ (sqlt_vcs, by_form oracle_type_nvarchar oracle_type_varchar)
    ∷ (sqlt_int, always oracle_type_number)
    ∷ (sqlt_flt, always oracle_type_number)
    ∷ (sqlt_num, always oracle_type_number)
    ∷ (sqlt_pdn, always oracle_type_number)
    ∷ (sqlt_vnu, always oracle_type_number)
    ∷ (sqlt_bfloat, always oracle_type_number)
    ∷ (sqlt_bdouble, always oracle_type_number)
    ∷ (oci_typecode_smallint, always oracle_type_number)
    ∷ (sqlt_dat, always oracle_type_date)
    ∷ (sqlt_odt, always oracle_type_date)
    ∷ (sqlt_bin, always oracle_type_raw)
    ∷ (sqlt_lvb, always oracle_type_raw)
    ∷ (sqlt_afc, by_form oracle_type_nchar oracle_type_char)
    ∷ (oci_typecode_binary_integer, always oracle_type_native_int)
    ∷ (oci_typecode_pls_integer, always oracle_type_native_int)
    ∷ (sqlt_ibfloat, always oracle_type_native_float)
    ∷ (sqlt_ibdouble, always oracle_type_native_double)
    ∷ (sqlt_date, always oracle_type_timestamp)
    ∷ (sqlt_timestamp, always oracle_type_timestamp)
    ∷ (sqlt_timestamp_tz, always oracle_type_timestamp_tz)
    ∷ (sqlt_timestamp_ltz, always oracle_type_timestamp_ltz)
    ∷ (sqlt_nty, always oracle_type_object)
    ∷ (sqlt_rec, always oracle_type_object)
    ∷ (sqlt_nco, always oracle_type_object)
    ∷ (sqlt_bol, always oracle_type_boolean)
    ∷ (sqlt_clob, by_form oracle_type_nclob oracle_type_clob)
    ∷ (sqlt_blob, always oracle_type_blob)
    ∷ (sqlt_bfile, always oracle_type_bfile)
    ∷ (sqlt_rdd, always oracle_type_rowid)
    ∷ (oci_typecode_rowid, always oracle_type_rowid)
    ∷ (sqlt_rset, always oracle_type_stmt)
    ∷ (sqlt_interval_ds, always oracle_type_interval_ds)
    ∷ (sqlt_interval_ym, always oracle_type_interval_ym)
    ∷ (sqlt_lng, always oracle_type_long_varchar)
    ∷ (oci_typecode_long, always oracle_type_long_varchar)
    ∷ (sqlt_lbi, always oracle_type_long_raw)
    ∷ (oci_typecode_long_raw, always oracle_type_long_raw)
    ∷ (sqlt_json, always oracle_type_json)
    ∷ (sqlt_vec, always oracle_type_vector)
    ∷ []

-- The case of a code; without one the `switch` is left, and 0 is returned.
unfoldable pub select : List (ℕ × (ℕ → ℕ)) → ℕ → ℕ → ℕ
select [] code form = 0
select ((c, f) ∷ cs) code form =
    let rest = select cs code form in if code == c then f form else rest

unfoldable pub convert_from_oracle : ℕ → ℕ → ℕ
unfolding select
convert_from_oracle code form = select conversions code form

-- The array has a place for each number, and the initialiser one entry less: the last is zero.
abbrev pub zero_type : OracleType
zero_type = record {
  oracle_type_num = 0;
  default_native_type = no_value;
  oracle_type = 0;
  charset_form = 0;
  size_in_bytes = variable;
  is_character_data = false;
  can_be_in_array = false;
  requires_pre_fetch = false;
}

-- `dpiAllOracleTypes`
abbrev pub all_oracle_types : List OracleType
all_oracle_types = plain_types ++ structured_types ++ (zero_type ∷ [])

-- An entry of the table; outside of it the source does not read.
unfoldable pub entry : List OracleType → ℕ → Result OracleType
entry [] i = err (dpi invalid_oracle_type)
entry (t ∷ ts) zero = ok t
entry (t ∷ ts) (suc i) = entry ts i

unfoldable pub get_from_num : ℕ → Result OracleType
unfolding entry
get_from_num n =
    if ltb oracle_type_none n && ltb n oracle_type_max
    then entry all_oracle_types (n - oracle_type_none - 1)
    else err (dpi invalid_oracle_type)
