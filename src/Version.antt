-- ===== src/Version.antt =====
-- The checks of the version of the Oracle Client and of the database: src/dpiUtils.c.
pub mod Order
pub mod Token
mod Tests
use alpha_odpi.Prelude.{ℕ, ◌==◌, ltb, ◌&&◌, ◌||◌, Bool, true, false, Option, some, none}
use alpha_odpi.Error.{
  Result, ok, err, dpi, fail_if, ◌>>◌, ◌>>=◌, oracle_client_too_old, oracle_client_too_old_multi,
  oracle_db_too_old,
}

-- `versionNum` and `releaseNum` of `dpiVersionInfo`.
pub record VersionInfo : Type 0 where
  pub version_num : ℕ
  pub release_num : ℕ

-- `dpiUtils__checkClientVersion`
unfoldable pub check_client_version : VersionInfo → ℕ → ℕ → Result (Unit {0})
check_client_version v min_version_num min_release_num =
    fail_if
      (ltb v.version_num min_version_num
        || v.version_num == min_version_num && ltb v.release_num min_release_num)
      oracle_client_too_old

-- `dpiUtils__checkClientVersionMulti`
unfoldable pub check_client_version_multi : VersionInfo → ℕ → ℕ → ℕ → ℕ → Result (Unit {0})
check_client_version_multi v min_version_num_1 min_release_num_1 min_version_num_2
      min_release_num_2 =
    fail_if
      (ltb v.version_num min_version_num_1
        || (v.version_num == min_version_num_1 && ltb v.release_num min_release_num_1)
        || (ltb min_version_num_1 v.version_num && ltb v.version_num min_version_num_2)
        || (v.version_num == min_version_num_2 && ltb v.release_num min_release_num_2))
      oracle_client_too_old_multi

-- `dpiUtils__checkDatabaseVersion`: the answer of `dpiConn__getServerVersion`.
unfoldable pub check_database_version : Result VersionInfo → ℕ → ℕ → Result (Unit {0})
check_database_version server min_version_num min_release_num = server >>= (λ v.
    fail_if
      (ltb v.version_num min_version_num
        || v.version_num == min_version_num && ltb v.release_num min_release_num)
      oracle_db_too_old)
