-- ===== src/Tests/Credentials.antt =====
-- The credentials and the selectors of a volume on the machine of the tests.
use data_csi.Base.{
  String, ◌≡◌, ◌≢◌, ◌↔◌, refl, false, List, [], ◌∷◌, some, none, ok, arith, ◌==◌, eq_iff, All, ap,
}
use mathlib.Core.Bool.{true≢false}
use data_csi.Base.Dict.{Dict, lookup, get_or_empty}
use data_csi.Go.Strings.{split, join_with, contains}
use data_csi.Host.{Credential, AuthConfig}
use data_csi.Node.Credentials.{parse_auth, credential, store_all, load_credentials}
use data_csi.Node.Credentials.Stores.{
  Distinct, StoreLaws, IsStored, load_credentials-IsStored, store_all-order,
}
use data_csi.Node.Stage.{label_selectors}
use data_csi.Node.Stage.Laws.Selectors.{label_selectors_exact}
use data_csi.Tests.Machine.{decode_auth, machine}
use data_csi.Tests.Requests.{context, secrets}

store_laws : StoreLaws machine lookup
store_laws = record {
  get-new = λ host. refl;
  put_ok = λ host c s. ((host, c) ∷ s, refl);
  get-put = λ host c s s' other h. ground arith;
}

has_config : get_or_empty ".dockerconfigjson" secrets ≢ ""
unfolding ◌==◌
has_config e = true≢false (ap (λ t. t == "{}") e)

abbrev login : AuthConfig
login = record { username = ""; password = ""; auth = "dTpw" }

abbrev plain : AuthConfig
plain = record { username = "v"; password = "q"; auth = "" }

abbrev user : Credential
user = record { username = "u"; password = "p" }

credentials_load : load_credentials machine secrets ≡ ok (("registry", user) ∷ [])
unfolding load_credentials store_all credential parse_auth decode_auth split ◌==◌
credentials_load = refl

load_credentials-IsStored_example :
    IsStored machine
      (lookup "registry" (("registry", login) ∷ []))
      none
      (lookup "registry" (("registry", user) ∷ []))
load_credentials-IsStored_example =
    load_credentials-IsStored store_laws secrets
      (record { auth_configs = ("registry", login) ∷ [] }) (("registry", user) ∷ []) "registry"
      has_config refl (refl, tt) credentials_load

abbrev auths : Dict AuthConfig
auths = ("one", login) ∷ ("two", plain) ∷ []

abbrev visited_otherwise : Dict AuthConfig
visited_otherwise = ("two", plain) ∷ ("one", login) ∷ []

abbrev stored : Dict Credential
stored = ("two", record { username = "v"; password = "q" }) ∷ ("one", user) ∷ []

auths-Distinct : Distinct auths
unfolding ◌==◌
auths-Distinct = (refl, (refl, tt))

visited_otherwise-Distinct : Distinct visited_otherwise
unfolding ◌==◌
visited_otherwise-Distinct = (refl, (refl, tt))

keys_apart : "one" == "two" ≡ false
unfolding ◌==◌
keys_apart = refl

same_entries : (host : String) → lookup host auths ≡ lookup host visited_otherwise
same_entries host =
    ground (arith, eq_iff "one" host, eq_iff "two" host, eq_iff "one" "two", keys_apart)

all_stored : store_all machine auths [] ≡ ok stored
unfolding store_all credential parse_auth decode_auth split ◌==◌
all_stored = refl

store_all-order_example :
    (t : Dict Credential) × (store_all machine visited_otherwise [] ≡ ok t)
    × ((host : String) → lookup host t ≡ lookup host stored)
store_all-order_example =
    store_all-order store_laws auths visited_otherwise [] stored auths-Distinct
      visited_otherwise-Distinct same_entries all_stored

abbrev selectors : List String
selectors = "a=1" ∷ "b=2" ∷ []

selector_given : lookup "selector" context ≡ some "a=1|b=2"
unfolding ◌==◌
selector_given = refl

label_selectors_exact_example : (label_selectors context ≡ selectors) ↔ (
    (selectors ≢ [])
    × All (λ s. contains b'|' s ≡ false) selectors
    × (join_with "|" selectors ≡ "a=1|b=2"))
label_selectors_exact_example = label_selectors_exact context "a=1|b=2" selectors selector_given
