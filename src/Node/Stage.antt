-- ===== src/Node/Stage.antt =====
-- pkg/data/node.go: `stageVolume` and `NodeStageVolume`.
pub mod Laws
use data_csi.Base.{
  String, ◌<>◌, ◌+◌, List, [], ◌∷◌, Option, none, some, Result, ok, err, Exec, guard, pure, gets,
  lift, map_error, ◌>>=◌, ◌>>◌, not, is_some, ◌==◌, if◌then◌else◌,
}
use data_csi.Base.Dict.{Dict, lookup, get_or_empty}
use data_csi.Errors.{Error, Status, wrap, status, internal, message, is_telemetry_send}
use data_csi.Csi.{NodeStageVolumeRequest, VolumeCapability}
use data_csi.Event.{EventType, get_pod_reference, bottle_pulling, bottle_pulled, bottle_failed}
use data_csi.Host.{Host, Config, PullOptions}
use data_csi.Go.Strings.{split}
use data_csi.Node.Server.{NodeServer, World, on_host, as_internal, emit, invalid}
use data_csi.Node.Credentials.{load_credentials}

-- The selectors of the volume context, none if it has no entry for them.
unfoldable pub label_selectors : Dict String → List String
label_selectors volume_context = elim (lookup "selector" volume_context) [
  | none ↦ []
  | some selector_string ↦ split b'|' selector_string
]

module _ {H : Host} (ns : NodeServer H) where
  unfoldable pub config : H.CredentialStore → Config H.types
  config store = record {
    user_agent = "ace-data-csi-driver";
    credential_store = store;
    telem_hosts = ns.telem_hosts;
    telem_user_name = ns.telem_user_name;
    cache_path = ns.cache_dir;
  }

  unfoldable pub pull_options : Dict String → PullOptions
  pull_options volume_context = record {
    cache_path = ns.cache_dir;
    labels = label_selectors volume_context;
  }

  -- An event about the pod of the volume.
  unfoldable pub event_step :
      Dict String → EventType → String → String → Exec (World H) Error (Unit {0})
  event_step volume_context event_type reason text w =
      (ok tt, emit ns (get_pod_reference volume_context) event_type reason text w)

  -- The call of `tbottle.Pull` and its error.
  unfoldable pub pull_step :
      String → Dict String → H.Source → H.Descriptor → Exec (World H) Error (Unit {0})
  pull_step staging_path volume_context src desc w =
      let (r, w') = on_host (H.pull src desc staging_path (pull_options volume_context)) w in
      elim r [
        | ok _ ↦ (ok tt, w')
        | err e ↦
            let text = message H.status_text e in
            (
              err (wrap "pulling bottle" (status (record { code = internal; message = text }))),
              emit ns (get_pod_reference volume_context) EventType.warning bottle_failed
                  ("Failed to pull bottle "
                    <> (get_or_empty "bottle" volume_context <> (": " <> text)))
                  w',
            )
      ]

  -- The call of `NotifyTelemetry`: a failure to send is ignored.
  unfoldable pub notify_step :
      String → H.Source → H.Descriptor → H.TelemetryEvent → Exec (World H) Error (Unit {0})
  notify_step staging_path src desc event w =
      let (r, w') =
        on_host (H.notify_telemetry ns.telem_hosts ns.telem_user_name src desc staging_path event)
          w in
      elim r [
        | ok _ ↦ (ok tt, w')
        | err e ↦
            if is_telemetry_send e then (ok tt, w') else (err (wrap "notifying telemetry" e), w')
      ]

  -- `ns.bottleCounter.Inc()`
  unfoldable pub count_bottle : Exec (World H) Error (Unit {0})
  count_bottle w = (ok tt, record w { bottle_counter = w.bottle_counter + 1 })

  unfoldable pub stage_volume : String → Dict String → Dict String → Exec (World H) Error (Unit {0})
  unfolding config pull_options event_step pull_step notify_step count_bottle label_selectors
  stage_volume staging_path volume_context credentials = do
    let btl_ref = get_or_empty "bottle" volume_context
    store ← lift (load_credentials H credentials)
    event_step volume_context EventType.normal bottle_pulling ("Pulling bottle " <> btl_ref)
    start_time ← gets (λ w. H.now w.host)
    resolved ←
        map_error (wrap "resolving bottle reference with telemetry")
          (on_host (H.resolve_with_telemetry (config store) btl_ref ns.cache_dir))
    pull_step staging_path volume_context resolved.0 resolved.1
    elapsed ← gets (λ w. H.since start_time w.host)
    event_step volume_context EventType.normal bottle_pulled
        ("Successfully pulled bottle " <> (btl_ref <> (" in " <> (elapsed <> " seconds"))))
    notify_step staging_path resolved.0 resolved.1 resolved.2
    count_bottle

  -- `NodeStageVolume`
  unfoldable pub node_stage_volume : NodeStageVolumeRequest → Exec (World H) Status (Unit {0})
  node_stage_volume req = do
    guard (not (req.volume_id == "")) (invalid "Volume ID must be provided")
    guard (not (req.staging_target_path == "")) (invalid "Staging Target Path must be provided")
    guard (is_some req.volume_capability) (invalid "Volume Capability must be provided")
    map_error (as_internal H) (stage_volume req.staging_target_path req.volume_context req.secrets)
