-- ===== src/Tests/Staging.antt =====
-- Staging on the machine of the tests, and the checks of requests.
use data_csi.Base.{
  String, ◌≡◌, ◌≢◌, ◌↔◌, ◌⊎◌, refl, true, false, List, [], ◌∷◌, ◌++◌, some, is_some, ok, err, is_ok,
  ◌==◌,
}
use data_csi.Base.Dict.{get_or_empty}
use data_csi.Go.Strings.{split, contains}
use data_csi.Errors.{Error, message}
use data_csi.Host.{Credential, Config, PullOptions}
use data_csi.Node.Server.{emit}
use data_csi.Node.Credentials.{parse_auth, credential, store_all, load_credentials}
use data_csi.Node.Credentials.Laws.{auth_text, parse_auth_exact}
use data_csi.Node.Stage.{config, pull_options, label_selectors, stage_volume, node_stage_volume}
use data_csi.Node.Stage.Laws.{stage_volume_pulls}
use data_csi.Node.Stage.Laws.Events.{pulling, pulled, failed, stage_volume_events}
use data_csi.Node.Publish.{is_ephemeral, node_publish_volume}
use data_csi.Node.Arguments.{Checks, node_publish_volume-Checks}
use data_csi.Tests.Machine.{disk_mkdir_all, decode_auth, machine}
use data_csi.Tests.Requests.{
  ns, empty, capability, context, secrets, stage_request, publish_request,
}

-- A staging with a credential in the secrets succeeds and is counted.
staged_and_counted : (node_stage_volume ns stage_request empty).1.bottle_counter ≡ 1
unfolding disk_mkdir_all node_stage_volume stage_volume load_credentials store_all credential
    parse_auth emit decode_auth split ◌==◌
staged_and_counted = refl

selectors_read : label_selectors context ≡ "a=1" ∷ "b=2" ∷ []
unfolding label_selectors split ◌==◌
selectors_read = refl

node_publish_volume-Checks_example :
    Checks
      ((is_some (some capability) ≡ true)
        × ((publish_request.volume_id ≢ "")
            × ((publish_request.target_path ≢ "")
                × ((is_ephemeral context ≡ true) ⊎ (publish_request.staging_target_path ≢ "")))))
      (node_publish_volume ns publish_request empty)
      empty
node_publish_volume-Checks_example = node_publish_volume-Checks ns publish_request empty

stage_succeeds : is_ok (stage_volume ns "/staging" context secrets empty).0 ≡ true
unfolding disk_mkdir_all stage_volume load_credentials store_all credential parse_auth emit
    decode_auth split ◌==◌
stage_succeeds = refl

stage_volume_pulls_example :
    (store : List (String × Credential)) × (found : String × String × String) × (load_credentials
        machine secrets
      ≡ ok store)
    × (let given : Config machine.types = record {
      user_agent = "ace-data-csi-driver";
      credential_store = store;
      telem_hosts = [];
      telem_user_name = "";
      cache_path = "/data/cache";
    } in
        let options : PullOptions = record {
          cache_path = "/data/cache";
          labels = label_selectors context;
        } in
        let (r, h) =
          machine.resolve_with_telemetry given
            (get_or_empty "bottle" context)
            "/data/cache"
            empty.host in
        (r ≡ ok found) × ((machine.pull found.0 found.1 "/staging" options h).0 ≡ ok tt))
stage_volume_pulls_example = stage_volume_pulls ns "/staging" context secrets empty stage_succeeds

stage_volume_events_example :
    let (r, w') = stage_volume ns "/staging" context secrets empty in
    let resolution = λ (store : List (String × Credential)).
      machine.resolve_with_telemetry
        (config ns store)
        (get_or_empty "bottle" context)
        "/data/cache"
        empty.host in
    let pulling_result = λ (store : List (String × Credential)) (found : String × String × String).
      machine.pull found.0 found.1 "/staging" (pull_options ns context) (resolution store).1 in
    ((e : Error) × (load_credentials machine secrets ≡ err e)
      × (is_ok r ≡ false)
      × (w'.events ≡ []))
    ⊎ ((store : List (String × Credential)) × (load_credentials machine secrets ≡ ok store)
        × (((e : Error) × ((resolution store).0 ≡ err e)
              × (is_ok r ≡ false)
              × (w'.events ≡ pulling ns context))
            ⊎ ((found : String × String × String) × ((resolution store).0 ≡ ok found)
                × (((e : Error) × ((pulling_result store found).0 ≡ err e)
                      × (is_ok r ≡ false)
                      × (w'.events
                          ≡ pulling ns context
                            ++ failed ns context (message machine.status_text e)))
                    ⊎ (((pulling_result store found).0 ≡ ok tt)
                        × (w'.events ≡ pulling ns context ++ pulled ns context "1s"))))))
stage_volume_events_example = stage_volume_events ns context "/staging" secrets empty

abbrev login : Credential
login = record { username = "u"; password = "p" }

parse_auth_exact_example :
    (parse_auth "u:p" ≡ ok login)
    ↔ (("u:p" ≡ auth_text login) × (contains b':' "u" ≡ false) × (contains b':' "p" ≡ false))
parse_auth_exact_example = parse_auth_exact "u:p" login
