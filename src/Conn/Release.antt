-- ===== src/Conn/Release.antt =====
-- The version of the server, which a connection keeps: `dpiConn__getServerVersion` of src/dpiConn.c.
pub mod Kept
use alpha_odpi.Prelude.{
  ℕ, ◌+◌, ◌*◌, ◌/◌, ◌%◌, ◌^◌, ◌≤◌, ◌<◌, ◌≡◌, refl, sym, ap, subst, Bool, true, false, not, ◌&&◌,
  ◌||◌, List, Option, none, some, ◌==◌, ltb, leb, if◌then◌else◌, arith, Bool-cases, inl, inr,
}
use alpha_odpi.Error.{Result, ok, err, dpi, no_memory}
use alpha_odpi.Version.{VersionInfo}

-- The parts of `dpiVersionInfo` of a server.
pub record ServerVersion : Type 0 where
  pub version : ℕ
  pub release : ℕ
  pub update : ℕ
  pub port_release : ℕ
  pub port_update : ℕ
  pub full_version : ℕ

-- The client with state `S`: the value in the context of a pooled session, the number of the server's
-- release and its text up to the zero, and the value that is put into the context. The flag of
-- `server_release` asks for the value that the client has kept.
pub record ReleaseClient (S : Type 0) : Type 0 where
  pub client_version : VersionInfo
  pub context_get : S → Result (Option ServerVersion)
  pub server_release : S → Bool → Result (ℕ × List ℕ)
  pub memory_alloc : S → Result (Unit {0})
  pub context_set : S → ServerVersion → S × Result (Unit {0})

-- `releaseString` and `versionInfo` of `dpiConn`, and whether it has a pool.
pub record Known : Type 0 where
  pub release_string : Option (List ℕ)
  pub info : ServerVersion
  pub pooled : Bool

-- `DPI_ORACLE_VERSION_TO_NUMBER`, as a uint32_t.
abbrev pub version_to_number : ℕ → ℕ → ℕ → ℕ → ℕ → ℕ
version_to_number v r u pr pu = (v * 100000000 + r * 1000000 + u * 10000 + pr * 100 + pu) % 2 ^ 32

abbrev pub numbered : ℕ → ℕ → ℕ → ℕ → ℕ → ServerVersion
numbered v r u pr pu = record {
  version = v;
  release = r;
  update = u;
  port_release = pr;
  port_update = pu;
  full_version = version_to_number v r u pr pu;
}

-- `process version number`
unfoldable pub process_version : ℕ → ServerVersion
process_version n =
    let v = n / 2 ^ 24 % 256 in
    if leb 18 v
    then numbered v (n / 2 ^ 16 % 256) (n / 2 ^ 12 % 16) (n / 2 ^ 4 % 256) (n % 16)
    else numbered v (n / 2 ^ 20 % 16) (n / 2 ^ 12 % 256) (n / 2 ^ 8 % 16) (n % 256)

abbrev pub is_given : Option (List ℕ) → Bool
is_given none = false
is_given (some text) = true

module _ {S : Type 0} (client : ReleaseClient S) (memory wants : Bool) where
  -- `ociCanCache`
  abbrev pub can_cache : Bool
  can_cache =
      (ltb 20 client.client_version.version_num
        || (client.client_version.version_num == 20 && leb 3 client.client_version.release_num))
      && not wants

  -- A failure to keep the version on the session is not one of the call.
  abbrev pub put_in_context : Known → S × Result (Unit {0}) → (S × Known) × Result (Unit {0})
  put_in_context k (s, r) = ((s, k), ok tt)

  abbrev pub with_memory : S → Known → Result (Unit {0}) → (S × Known) × Result (Unit {0})
  with_memory s k (err e) = ((s, k), err e)
  with_memory s k (ok u) = put_in_context k (client.context_set s k.info)

  abbrev pub keep_on_session : S → Known → (S × Known) × Result (Unit {0})
  keep_on_session s k =
      if k.pooled && not can_cache then with_memory s k (client.memory_alloc s) else ((s, k), ok tt)

  abbrev pub with_release : S → Known → Result (ℕ × List ℕ) → (S × Known) × Result (Unit {0})
  with_release s k (err e) = ((s, k), err e)
  with_release s k (ok (n, text)) =
      if can_cache
      then keep_on_session s (record k { info = process_version n })
      else if memory
      then keep_on_session s (record k { info = process_version n; release_string = some text })
      else ((s, k), err (dpi no_memory))

  abbrev pub with_context :
      S → Known → Result (Option ServerVersion) → (S × Known) × Result (Unit {0})
  with_context s k (err e) = ((s, k), err e)
  with_context s k (ok (some info)) = ((s, record k { info = info }), ok tt)
  with_context s k (ok none) = with_release s k (client.server_release s can_cache)

  -- `dpiConn__getServerVersion`, with the answer of the allocator for the text.
  unfoldable pub get_server_version : S → Known → (S × Known) × Result (Unit {0})
  unfolding process_version
  get_server_version s k =
      if is_given k.release_string || (ltb 0 k.info.version && not wants)
      then ((s, k), ok tt)
      else if k.pooled && not can_cache && not wants
      then with_context s k (client.context_get s)
      else with_release s k (client.server_release s can_cache)
