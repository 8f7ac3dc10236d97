-- ===== src/Number.antt =====
-- Oracle numbers as text and as bytes: `dpiUtils__parseNumberString` and
-- `dpiUtils__parseOracleNumber` of src/dpiUtils.c, `dpiDataBuffer__fromOracleNumberAsText` and
-- `dpiDataBuffer__toOracleNumberFromText` of src/dpiData.c. The children hold one function each.
pub mod Digits
pub mod Scan
pub mod Encode
pub mod Decode
pub mod Text
pub mod Parse
pub mod Print
pub mod Bytes
pub mod Codec
mod Tests
