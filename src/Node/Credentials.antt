-- ===== src/Node/Credentials.antt =====
-- pkg/data/node.go, the start of `stageVolume`: the credentials of the registries.
pub mod Laws
pub mod Stores
use data_csi.Base.{String, List, [], ◌∷◌, Result, ok, err, ◌==◌, if◌then◌else◌}
use data_csi.Base.Dict.{Dict, get_or_empty}
use data_csi.Errors.{Error, text, wrap}
use data_csi.Host.{Host, Credential, AuthConfig}
use data_csi.Go.Strings.{split}

-- `parts := strings.Split(string(data), ":")` and the test on their number.
unfoldable pub parse_auth : String → Result Error Credential
parse_auth data_text = elim (split b':' data_text) [
  | username ∷ password ∷ [] ↦ ok (record { username = username; password = password })
  | _ ↦ err (text "incorrectly formatted auth")
]

module _ (H : Host) where
  -- The credential of one entry: `auth`, where it is given, goes before the two fields.
  unfoldable pub credential : AuthConfig → Result Error Credential
  unfolding parse_auth
  credential cfg =
      if cfg.auth == ""
      then ok (record { username = cfg.username; password = cfg.password })
      else elim (H.decode_base64 cfg.auth) [
        | err e ↦ err (wrap "decoding auth" e)
        | ok decoded ↦ parse_auth decoded
      ]

  -- The loop over `dockerCfg.AuthConfigs`.
  unfoldable pub store_all :
      List (String × AuthConfig) → H.CredentialStore → Result Error H.CredentialStore
  store_all [] store = ok store
  store_all ((hostname, cfg) ∷ rest) store = elim (credential cfg) [
    | err e ↦ err e
    | ok cred ↦ elim (H.put hostname cred store) [
      | err e ↦ err (wrap "storing credentials in memory" e)
      | ok store' ↦ store_all rest store'
    ]
  ]

  -- Everything that `stageVolume` does with the secrets.
  unfoldable pub load_credentials : Dict String → Result Error H.CredentialStore
  load_credentials credentials =
      let docker_config = get_or_empty ".dockerconfigjson" credentials in
      if docker_config == "" then ok H.new_memory_store else elim (H.decode_config docker_config) [
        | err e ↦ err (wrap "decoding docker config" e)
        | ok config ↦ store_all config.auth_configs H.new_memory_store
      ]
