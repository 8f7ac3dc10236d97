-- ===== src/OracleType/Conversion.antt =====
-- How the codes of the database that `dpiOracleType__convertFromOracle` converts agree with the
-- codes in `dpiAllOracleTypes` of src/dpiOracleType.c.
use alpha_odpi.Prelude.{ℕ, Bool, true, false, List, [], ◌∷◌, ◌==◌, ◌&&◌, ◌||◌, if◌then◌else◌, not}
use alpha_odpi.Error.{Result, ok, err}
use alpha_odpi.OracleType.{OracleType}
use alpha_odpi.OracleType.Codes.{
  oracle_type_varchar, oracle_type_nvarchar, oracle_type_char, oracle_type_nchar, oracle_type_rowid,
  oracle_type_raw, oracle_type_number, oracle_type_date, oracle_type_timestamp,
  oracle_type_timestamp_tz, oracle_type_timestamp_ltz, oracle_type_interval_ds,
  oracle_type_interval_ym, oracle_type_clob, oracle_type_nclob, oracle_type_blob, oracle_type_bfile,
  oracle_type_stmt, oracle_type_boolean, oracle_type_object, oracle_type_json, oracle_type_vector,
  sqlt_chr, sqlt_num, sqlt_int, sqlt_flt, sqlt_vnu, sqlt_pdn, sqlt_vcs, sqlt_dat, sqlt_bfloat,
  sqlt_bdouble, sqlt_bin, sqlt_lvb, sqlt_rdd, sqlt_nty, sqlt_nco, sqlt_odt, sqlt_date,
  sqlt_timestamp, oci_typecode_smallint, sqlt_rec, oci_typecode_rowid,
}
use alpha_odpi.OracleType.Table.{conversions, convert_from_oracle}

-- The numbers of the types of columns and attributes: the other entries of the table say how values
-- of one of these are held in a variable.
abbrev pub column_types : List ℕ
column_types =
    oracle_type_varchar ∷ oracle_type_nvarchar ∷ oracle_type_char ∷ oracle_type_nchar
    ∷ oracle_type_rowid ∷ oracle_type_raw ∷ oracle_type_number ∷ oracle_type_date
    ∷ oracle_type_timestamp ∷ oracle_type_timestamp_tz ∷ oracle_type_timestamp_ltz
    ∷ oracle_type_interval_ds ∷ oracle_type_interval_ym ∷ oracle_type_clob ∷ oracle_type_nclob
    ∷ oracle_type_blob ∷ oracle_type_bfile ∷ oracle_type_stmt ∷ oracle_type_boolean
    ∷ oracle_type_object ∷ oracle_type_json ∷ oracle_type_vector ∷ []

-- Codes of the database, each with the code in the table for values of the same kind.
abbrev pub synonyms : List (ℕ × ℕ)
synonyms =
    (sqlt_vcs, sqlt_chr)
    ∷ (sqlt_int, sqlt_vnu)
    ∷ (sqlt_flt, sqlt_vnu)
    ∷ (sqlt_num, sqlt_vnu)
    ∷ (sqlt_pdn, sqlt_vnu)
    ∷ (sqlt_bfloat, sqlt_vnu)
    ∷ (sqlt_bdouble, sqlt_vnu)
    ∷ (oci_typecode_smallint, sqlt_vnu)
    ∷ (sqlt_dat, sqlt_odt)
    ∷ (sqlt_lvb, sqlt_bin)
    ∷ (sqlt_date, sqlt_timestamp)
    ∷ (sqlt_rec, sqlt_nty)
    ∷ (sqlt_nco, sqlt_nty)
    ∷ (oci_typecode_rowid, sqlt_rdd)
    ∷ []

abbrev pub has : List ℕ → ℕ → Bool
has [] n = false
has (m ∷ ms) n = n == m || has ms n

-- A code is another one, or stands for it.
abbrev pub stands_for : List (ℕ × ℕ) → ℕ → ℕ → Bool
stands_for [] code c = code == c
stands_for ((a, b) ∷ ss) code c = (code == a && c == b) || stands_for ss code c

abbrev every : (ℕ → Bool) → List ℕ → Bool
every p [] = true
every p (n ∷ ns) = p n && every p ns

-- Whether all that stand for a code are converted into a number.
abbrev all_converted : List (ℕ × ℕ) → ℕ → ℕ → ℕ → Bool
all_converted [] n c form = convert_from_oracle c form == n
all_converted ((a, b) ∷ ss) n c form =
    (if c == b then convert_from_oracle a form == n else true) && all_converted ss n c form

-- Whether the cases that return a number are of codes that stand for one.
abbrev only : List (ℕ × (ℕ → ℕ)) → ℕ → ℕ → ℕ → Bool
only [] n c form = not (n == 0)
only ((a, f) ∷ cs) n c form =
    (if f form == n then stands_for synonyms a c else true) && only cs n c form

abbrev agrees : ℕ → Result OracleType → Bool
agrees n (ok t) =
    all_converted synonyms n t.oracle_type t.charset_form
    && only conversions n t.oracle_type t.charset_form
agrees n (err e) = false
