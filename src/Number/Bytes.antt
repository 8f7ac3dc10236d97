-- ===== src/Number/Bytes.antt =====
-- From digits to the bytes of an OCINumber and back: `dpiDataBuffer__toOracleNumberFromText` of
-- src/dpiData.c against `dpiUtils__parseOracleNumber` of src/dpiUtils.c.
pub mod Exponent
pub mod Mantissa
pub mod Sentinel
pub mod Stream
pub mod RoundTrip
pub mod Size
