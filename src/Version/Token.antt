-- ===== src/Version/Token.antt =====
-- The authentication by a token: `dpiUtils__setAccessTokenAttributes` of src/dpiUtils.c.
use alpha_odpi.Prelude.{
  ℕ, ◌≡◌, refl, ◌<◌, ◌≤◌, ◌⊎◌, ◌==◌, ◌||◌, Bool, true, false, not, Option, some, none, List, length,
  arith,
}
use alpha_odpi.Error.{Result, ok, err, dpi, fail_if, ◌>>◌, token_based_auth}
use alpha_odpi.Options.{AttrClient, number, text}
use alpha_odpi.Version.{VersionInfo, check_client_version_multi}
use alpha_odpi.Version.Order.{AtLeast, check_client_version_multi_iff}

abbrev pub token_attr : ℕ
token_attr = 636

abbrev pub iam_privkey_attr : ℕ
iam_privkey_attr = 637

abbrev pub token_isbearer_attr : ℕ
token_isbearer_attr = 657

-- `dpiAccessToken`: the bytes at each pointer, with their length, or NULL.
pub record AccessToken : Type 0 where
  pub token : Option (List ℕ)
  pub private_key : Option (List ℕ)

abbrev pub is_some : Option (List ℕ) → Bool
is_some none = false
is_some (some bytes) = true

abbrev pub is_empty : Option (List ℕ) → Bool
is_empty none = false
is_empty (some bytes) = length bytes == 0

-- IAM needs 19.14 or 21.5, OAuth needs 19.15 or 21.7.
abbrev pub check_version : Option (List ℕ) → VersionInfo → Result (Unit {0})
check_version (some key) v = check_client_version_multi v 19 14 21 5
check_version none v = check_client_version_multi v 19 15 21 7

module _ {S : Type 0} (client : AttrClient S) where
  -- The value of the second attribute: the private key, or the flag of a bearer.
  abbrev pub set_key : Option (List ℕ) → S → S × Result (Unit {0})
  set_key (some key) s = client.attr_set s iam_privkey_attr (text key)
  set_key none s = client.attr_set s token_isbearer_attr (number 1)

  abbrev pub set_token : Option (List ℕ) → S × Result (Unit {0}) → S × Result (Unit {0})
  set_token key (s, err e) = (s, err e)
  set_token key (s, ok u) = set_key key s

  -- A NULL token never comes so far.
  abbrev pub set_checked :
      Option (List ℕ) → Option (List ℕ) → Result (Unit {0}) → S → S × Result (Unit {0})
  set_checked token key (err e) s = (s, err e)
  set_checked none key (ok u) s = (s, err (dpi token_based_auth))
  set_checked (some bytes) key (ok u) s = set_token key (client.attr_set s token_attr (text bytes))

  -- `dpiUtils__setAccessTokenAttributes`, on the authorisation handle with state `s`.
  unfoldable pub set_access_token_attributes : AccessToken → VersionInfo → S → S × Result (Unit {0})
  set_access_token_attributes t v s =
      set_checked t.token t.private_key
        (fail_if (not (is_some t.token) || is_empty t.token || is_empty t.private_key)
            token_based_auth
          >> check_version t.private_key v)
        s

  -- What it takes to set a token: it has bytes, and so has the key if there is one, the client is of
  -- one of the two lines that know it, and took first the token, then the key or the flag.
  pub data Authorised (v : VersionInfo) (s s' : S)
      : Option (List ℕ) → Option (List ℕ) → Type 0 where
    iam :
        (bytes key : List ℕ)
        → 0 < length bytes
        → 0 < length key
        → ((19 ≡ v.version_num) × (14 ≤ v.release_num)) ⊎ AtLeast 21 5 v
        → (client.attr_set s token_attr (text bytes)).1 ≡ ok tt
        → client.attr_set (client.attr_set s token_attr (text bytes)).0 iam_privkey_attr (text key)
          ≡ (s', ok tt)
        → Authorised v s s' (some bytes) (some key)
    oauth :
        (bytes : List ℕ)
        → 0 < length bytes
        → ((19 ≡ v.version_num) × (15 ≤ v.release_num)) ⊎ AtLeast 21 7 v
        → (client.attr_set s token_attr (text bytes)).1 ≡ ok tt
        → client.attr_set
            (client.attr_set s token_attr (text bytes)).0
            token_isbearer_attr
            (number 1)
          ≡ (s', ok tt)
        → Authorised v s s' (some bytes) none

  set_token-ok :
      (key : Option (List ℕ)) (r : S × Result (Unit {0})) (s' : S)
      → set_token key r ≡ (s', ok tt)
      → (r.1 ≡ ok tt) × (set_key key r.0 ≡ (s', ok tt))
  set_token-ok key (s, ok tt) s' h = (refl, h)
  set_token-ok key (s, err e) s' h = cc

  set_checked-ok :
      (bytes : List ℕ) (key : Option (List ℕ)) (b : Bool) (r : Result (Unit {0})) (s s' : S)
      → set_checked (some bytes) key (fail_if b token_based_auth >> r) s ≡ (s', ok tt)
      → (b ≡ false)
        × (r ≡ ok tt)
        × (set_token key (client.attr_set s token_attr (text bytes)) ≡ (s', ok tt))
  set_checked-ok bytes key true r s s' h = cc
  set_checked-ok bytes key false (err e) s s' h = cc
  set_checked-ok bytes key false (ok tt) s s' h = (refl, refl, h)

  -- When the attributes of an access token are set, the token has bytes, and so has the private key
  -- if there is one; the client is of version 19 from release 14 on or at least 21.5 for a key, of
  -- version 19 from release 15 on or at least 21.7 for a bearer; and it has taken the token first,
  -- then the key or the flag of a bearer.
  pub set_access_token_attributes-Authorised :
      (token key : Option (List ℕ)) (v : VersionInfo) (s s' : S)
      → set_access_token_attributes (record { token = token; private_key = key }) v s ≡ (s', ok tt)
      → Authorised v s s' token key
  unfolding set_access_token_attributes
  set_access_token_attributes-Authorised none key v s s' h = cc
  set_access_token_attributes-Authorised (some bytes) none v s s' h =
      let (b, r, e) = set_checked-ok bytes none _ _ s s' h in
      let (f, g) = set_token-ok none _ s' e in
      oauth bytes (ground arith) ((check_client_version_multi_iff v 19 15 21 7 (omega arith)).0 r) f
        g
  set_access_token_attributes-Authorised (some bytes) (some key) v s s' h =
      let (b, r, e) = set_checked-ok bytes (some key) _ _ s s' h in
      let (f, g) = set_token-ok (some key) _ s' e in
      iam bytes key (ground arith) (ground arith)
        ((check_client_version_multi_iff v 19 14 21 5 (omega arith)).0 r) f g
