-- ===== src/Version/Tests.antt =====
-- Versions and tokens at concrete ones.
use alpha_odpi.Prelude.{◌≡◌, refl, ◌⊎◌, ◌↔◌, ◌≤◌, arith, List, [], ◌∷◌, some, none, ℕ}
use alpha_odpi.Error.{ok, err, dpi, oracle_client_too_old_multi}
use alpha_odpi.Options.{AttrClient, AttrValue, number, text}
use alpha_odpi.Version.{VersionInfo, check_client_version_multi}
use alpha_odpi.Version.Order.{AtLeast, check_client_version_multi_iff}
use alpha_odpi.Version.Token.{
  set_access_token_attributes, Authorised, set_access_token_attributes-Authorised, iam_privkey_attr,
  token_attr,
}

abbrev client_19_14 : VersionInfo
client_19_14 = record { version_num = 19; release_num = 14 }

-- Release 20 belongs to neither line.
no_line :
    check_client_version_multi (record { version_num = 20; release_num = 30 }) 19 14 21 5
    ≡ err (dpi oracle_client_too_old_multi)
unfolding check_client_version_multi
no_line = refl

check_client_version_multi_iff_example :
    (check_client_version_multi client_19_14 19 14 21 5 ≡ ok tt) ↔ (
      ((19 ≡ client_19_14.version_num) × (14 ≤ client_19_14.release_num))
      ⊎ AtLeast 21 5 client_19_14)
check_client_version_multi_iff_example =
    check_client_version_multi_iff client_19_14 19 14 21 5 (omega arith)

abbrev Attributes : Type 0
Attributes = List (ℕ × AttrValue)

abbrev client : AttrClient Attributes
client = record {
  attr_get = λ s a. ok (number 0);
  attr_set = λ s a v. ((a, v) ∷ s, ok tt);
  raw_assign = λ bytes. ok bytes;
}

abbrev with_key : Attributes
with_key = (iam_privkey_attr, text (7 ∷ [])) ∷ (token_attr, text (1 ∷ 2 ∷ [])) ∷ []

taken :
    set_access_token_attributes client
      (record { token = some (1 ∷ 2 ∷ []); private_key = some (7 ∷ []) })
      client_19_14
      []
    ≡ (with_key, ok tt)
unfolding set_access_token_attributes check_client_version_multi
taken = refl

-- A bearer's token needs 19.15.
too_old :
    (set_access_token_attributes client
      (record { token = some (1 ∷ 2 ∷ []); private_key = none })
      client_19_14
      []).1
    ≡ err (dpi oracle_client_too_old_multi)
unfolding set_access_token_attributes check_client_version_multi
too_old = refl

set_access_token_attributes-Authorised_example :
    Authorised client client_19_14 [] with_key (some (1 ∷ 2 ∷ [])) (some (7 ∷ []))
set_access_token_attributes-Authorised_example =
    set_access_token_attributes-Authorised client (some (1 ∷ 2 ∷ [])) (some (7 ∷ [])) client_19_14
      [] with_key taken
