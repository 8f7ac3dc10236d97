-- ===== src/Version/Order.antt =====
-- The checks of versions as comparisons of pairs.
use alpha_odpi.Prelude.{ℕ, ◌≡◌, ◌<◌, ◌≤◌, ◌⊎◌, ◌↔◌, arith}
use alpha_odpi.Error.{ok}
use alpha_odpi.Version.{VersionInfo, check_client_version, check_client_version_multi}

-- The version is the given one or a later one.
abbrev pub AtLeast : ℕ → ℕ → VersionInfo → Type 0
AtLeast version release v =
    (version < v.version_num) ⊎ ((version ≡ v.version_num) × (release ≤ v.release_num))

-- The check of the client succeeds exactly if its version and release, compared in this order, are
-- at least those asked for.
check_client_version_iff :
    (v : VersionInfo) (version release : ℕ)
    → (check_client_version v version release ≡ ok tt) ↔ AtLeast version release v
unfolding check_client_version
check_client_version_iff v version release = (λ h. ground arith, λ h. ground arith)

-- For two versions in order, the check for two lines of the client succeeds exactly if the client
-- is of the first version with at least its release, or at least of the second version and release.
pub check_client_version_multi_iff :
    (v : VersionInfo) (version_1 release_1 version_2 release_2 : ℕ)
    → version_1 < version_2
    → (check_client_version_multi v version_1 release_1 version_2 release_2 ≡ ok tt) ↔ (
        ((version_1 ≡ v.version_num) × (release_1 ≤ v.release_num)) ⊎ AtLeast version_2 release_2 v)
unfolding check_client_version_multi
check_client_version_multi_iff v version_1 release_1 version_2 release_2 h =
    (λ e. ground arith, λ e. ground arith)
