-- ===== src/OracleType/Codes.antt =====
-- The codes of types: DPI_ORACLE_TYPE_* of include/dpi.h, and DPI_SQLT_*, DPI_OCI_TYPECODE_* and
-- DPI_SQLCS_* of src/dpiImpl.h.
use alpha_odpi.Prelude.{ℕ}

abbrev pub oracle_type_none : ℕ
oracle_type_none = 2000

abbrev pub oracle_type_varchar : ℕ
oracle_type_varchar = 2001

abbrev pub oracle_type_nvarchar : ℕ
oracle_type_nvarchar = 2002

abbrev pub oracle_type_char : ℕ
oracle_type_char = 2003

abbrev pub oracle_type_nchar : ℕ
oracle_type_nchar = 2004

abbrev pub oracle_type_rowid : ℕ
oracle_type_rowid = 2005

abbrev pub oracle_type_raw : ℕ
oracle_type_raw = 2006

abbrev pub oracle_type_native_float : ℕ
oracle_type_native_float = 2007

abbrev pub oracle_type_native_double : ℕ
oracle_type_native_double = 2008

abbrev pub oracle_type_native_int : ℕ
oracle_type_native_int = 2009

abbrev pub oracle_type_number : ℕ
oracle_type_number = 2010

abbrev pub oracle_type_date : ℕ
oracle_type_date = 2011

abbrev pub oracle_type_timestamp : ℕ
oracle_type_timestamp = 2012

abbrev pub oracle_type_timestamp_tz : ℕ
oracle_type_timestamp_tz = 2013

abbrev pub oracle_type_timestamp_ltz : ℕ
oracle_type_timestamp_ltz = 2014

abbrev pub oracle_type_interval_ds : ℕ
oracle_type_interval_ds = 2015

abbrev pub oracle_type_interval_ym : ℕ
oracle_type_interval_ym = 2016

abbrev pub oracle_type_clob : ℕ
oracle_type_clob = 2017

abbrev pub oracle_type_nclob : ℕ
oracle_type_nclob = 2018

abbrev pub oracle_type_blob : ℕ
oracle_type_blob = 2019

abbrev pub oracle_type_bfile : ℕ
oracle_type_bfile = 2020

abbrev pub oracle_type_stmt : ℕ
oracle_type_stmt = 2021

abbrev pub oracle_type_boolean : ℕ
oracle_type_boolean = 2022

abbrev pub oracle_type_object : ℕ
oracle_type_object = 2023

abbrev pub oracle_type_long_varchar : ℕ
oracle_type_long_varchar = 2024

abbrev pub oracle_type_long_raw : ℕ
oracle_type_long_raw = 2025

abbrev pub oracle_type_native_uint : ℕ
oracle_type_native_uint = 2026

abbrev pub oracle_type_json : ℕ
oracle_type_json = 2027

abbrev pub oracle_type_json_object : ℕ
oracle_type_json_object = 2028

abbrev pub oracle_type_json_array : ℕ
oracle_type_json_array = 2029

abbrev pub oracle_type_urowid : ℕ
oracle_type_urowid = 2030

abbrev pub oracle_type_long_nvarchar : ℕ
oracle_type_long_nvarchar = 2031

abbrev pub oracle_type_xmltype : ℕ
oracle_type_xmltype = 2032

abbrev pub oracle_type_vector : ℕ
oracle_type_vector = 2033

abbrev pub oracle_type_max : ℕ
oracle_type_max = 2035

abbrev pub sqlt_chr : ℕ
sqlt_chr = 1

abbrev pub sqlt_num : ℕ
sqlt_num = 2

abbrev pub sqlt_int : ℕ
sqlt_int = 3

abbrev pub sqlt_flt : ℕ
sqlt_flt = 4

abbrev pub sqlt_vnu : ℕ
sqlt_vnu = 6

abbrev pub sqlt_pdn : ℕ
sqlt_pdn = 7

abbrev pub sqlt_lng : ℕ
sqlt_lng = 8

abbrev pub sqlt_vcs : ℕ
sqlt_vcs = 9

abbrev pub sqlt_dat : ℕ
sqlt_dat = 12

abbrev pub sqlt_bfloat : ℕ
sqlt_bfloat = 21

abbrev pub sqlt_bdouble : ℕ
sqlt_bdouble = 22

abbrev pub sqlt_bin : ℕ
sqlt_bin = 23

abbrev pub sqlt_lbi : ℕ
sqlt_lbi = 24

abbrev pub sqlt_uin : ℕ
sqlt_uin = 68

abbrev pub sqlt_lvb : ℕ
sqlt_lvb = 95

abbrev pub sqlt_afc : ℕ
sqlt_afc = 96

abbrev pub sqlt_ibfloat : ℕ
sqlt_ibfloat = 100

abbrev pub sqlt_ibdouble : ℕ
sqlt_ibdouble = 101

abbrev pub sqlt_rdd : ℕ
sqlt_rdd = 104

abbrev pub sqlt_nty : ℕ
sqlt_nty = 108

abbrev pub sqlt_clob : ℕ
sqlt_clob = 112

abbrev pub sqlt_blob : ℕ
sqlt_blob = 113

abbrev pub sqlt_bfile : ℕ
sqlt_bfile = 114

abbrev pub sqlt_rset : ℕ
sqlt_rset = 116

abbrev pub sqlt_json : ℕ
sqlt_json = 119

abbrev pub sqlt_nco : ℕ
sqlt_nco = 122

abbrev pub sqlt_vec : ℕ
sqlt_vec = 127

abbrev pub sqlt_odt : ℕ
sqlt_odt = 156

abbrev pub sqlt_date : ℕ
sqlt_date = 184

abbrev pub sqlt_timestamp : ℕ
sqlt_timestamp = 187

abbrev pub sqlt_timestamp_tz : ℕ
sqlt_timestamp_tz = 188

abbrev pub sqlt_interval_ym : ℕ
sqlt_interval_ym = 189

abbrev pub sqlt_interval_ds : ℕ
sqlt_interval_ds = 190

abbrev pub sqlt_timestamp_ltz : ℕ
sqlt_timestamp_ltz = 232

abbrev pub oci_typecode_smallint : ℕ
oci_typecode_smallint = 246

abbrev pub sqlt_rec : ℕ
sqlt_rec = 250

abbrev pub sqlt_bol : ℕ
sqlt_bol = 252

abbrev pub oci_typecode_rowid : ℕ
oci_typecode_rowid = 262

abbrev pub oci_typecode_long : ℕ
oci_typecode_long = 263

abbrev pub oci_typecode_long_raw : ℕ
oci_typecode_long_raw = 264

abbrev pub oci_typecode_binary_integer : ℕ
oci_typecode_binary_integer = 265

abbrev pub oci_typecode_pls_integer : ℕ
oci_typecode_pls_integer = 266

abbrev pub sqlcs_implicit : ℕ
sqlcs_implicit = 1

abbrev pub sqlcs_nchar : ℕ
sqlcs_nchar = 2
