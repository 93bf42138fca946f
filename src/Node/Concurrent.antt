-- ===== src/Node/Concurrent.antt =====
-- pkg/data/node.go: the calls as gRPC runs them, each in a goroutine of its own with no lock. A call
-- of the machine, of the recorder or of the counter is atomic, and so is a pull with the event of its
-- failure; between two of them other calls run.
pub mod Alone
pub mod System
pub mod Quiet
pub mod Depth
pub mod Mounts
pub mod Race
pub mod Removal
pub mod Careful
pub mod Parts
pub mod Apart
use data_csi.Base.{
  String, ◌<>◌, Bool, true, false, not, is_some, Result, ok, err, ◌==◌, if◌then◌else◌, lift, gets,
}
use data_csi.Base.Act.{Act, done, pure, fail, atomic, try, guard, map_error, ◌>>=◌, ◌>>◌}
use data_csi.Base.Dict.{Dict, get_or_empty}
use data_csi.Errors.{Error, Status, wrap, is_not_exist, os_is_not_exist}
use data_csi.Csi.{
  NodeStageVolumeRequest, NodePublishVolumeRequest, NodeUnpublishVolumeRequest,
  NodeUnstageVolumeRequest,
}
use data_csi.Event.{EventType, bottle_pulling, bottle_pulled}
use data_csi.Host.{Host, FileMode}
use data_csi.Node.Server.{NodeServer, World, on_host, as_internal, invalid}
use data_csi.Node.Credentials.{load_credentials}
use data_csi.Node.Stage.{config, event_step, pull_step, notify_step, count_bottle}
use data_csi.Node.Publish.{is_ephemeral, ephemeral_path, mount_options}
use data_csi.Node.Unpublish.{remove_path}
use data_csi.Node.Unstage.{remove_staging}
use data_csi.Node.Lifecycle.{Call, stage, publish, unpublish, unstage}

abbrev pub Handler : Host → Type 0 → Type 0
Handler H A = Act (World H) Status A

module _ {H : Host} where
  -- The target's test, and what follows it: the directory is made where it is missing.
  unfoldable pub after_test : String → Result Error Bool → Act (World H) Error Bool
  after_test target_path (ok not_mnt) = pure not_mnt
  after_test target_path (err e) =
      if os_is_not_exist e
      then (atomic (on_host (H.mkdir_all target_path 0o750)) >> pure true)
      else fail e

  unfoldable pub test_act : String → Act (World H) Error Bool
  test_act target_path =
      try (λ w. (H.is_not_mount_point target_path w.host, w)) >>= after_test target_path

  -- The mount, where the test found none.
  unfoldable pub mount_act : String → NodePublishVolumeRequest → Bool → Handler H (Unit {0})
  mount_act staging_path req not_mnt =
      if not not_mnt
      then pure tt
      else map_error (as_internal H)
          (atomic (on_host (H.mount staging_path req.target_path "" (mount_options req.readonly))))

  -- The unmount, where the test finds a mount.
  unfoldable pub unmount_tested : String → Result Error Bool → Handler H (Unit {0})
  unmount_tested target_path (err e) = if is_not_exist e then pure tt else fail (as_internal H e)
  unmount_tested target_path (ok not_mnt) =
      if not not_mnt
      then map_error (as_internal H) (atomic (on_host (H.unmount target_path)))
      else pure tt

  unfoldable pub unmount_act : String → Handler H (Unit {0})
  unmount_act target_path =
      try (λ w. (H.is_not_mount_point target_path w.host, w)) >>= unmount_tested target_path

  -- The removal of an ephemeral volume's directory, where it is found.
  unfoldable pub clean_up_found : String → Result Error FileMode → Handler H (Unit {0})
  clean_up_found staging_path (ok _) = atomic (remove_path staging_path)
  clean_up_found staging_path (err e) = pure tt

  unfoldable pub clean_up_act : String → Handler H (Unit {0})
  clean_up_act staging_path =
      try (λ w. (H.stat staging_path w.host, w)) >>= clean_up_found staging_path

module _ {H : Host} (ns : NodeServer H) where
  -- `stageVolume`
  unfoldable pub stage_act : String → Dict String → Dict String → Act (World H) Error (Unit {0})
  stage_act staging_path volume_context credentials = do
    let btl_ref = get_or_empty "bottle" volume_context
    store ← done (load_credentials H credentials)
    atomic (
        event_step ns volume_context EventType.normal bottle_pulling ("Pulling bottle " <> btl_ref))
    start_time ← atomic (gets (λ w. H.now w.host))
    resolved ←
        map_error (wrap "resolving bottle reference with telemetry")
          (atomic (on_host (H.resolve_with_telemetry (config ns store) btl_ref ns.cache_dir)))
    atomic (pull_step ns staging_path volume_context resolved.0 resolved.1)
    elapsed ← atomic (gets (λ w. H.since start_time w.host))
    atomic (
        event_step ns volume_context EventType.normal bottle_pulled
          ("Successfully pulled bottle " <> (btl_ref <> (" in " <> (elapsed <> " seconds")))))
    atomic (notify_step ns staging_path resolved.0 resolved.1 resolved.2)
    atomic (count_bottle ns)

  -- `NodeStageVolume`
  unfoldable pub node_stage_act : NodeStageVolumeRequest → Handler H (Unit {0})
  node_stage_act req = do
    guard (not (req.volume_id == "")) (invalid "Volume ID must be provided")
    guard (not (req.staging_target_path == "")) (invalid "Staging Target Path must be provided")
    guard (is_some req.volume_capability) (invalid "Volume Capability must be provided")
    map_error (as_internal H) (stage_act req.staging_target_path req.volume_context req.secrets)

  -- The path to mount, staged now for an ephemeral volume.
  unfoldable pub staged_act : NodePublishVolumeRequest → Handler H String
  staged_act req =
      if is_ephemeral req.volume_context
      then (do
        let path = ephemeral_path ns req.volume_id
        map_error (as_internal H) (stage_act path req.volume_context req.secrets)
        pure path)
      else pure req.staging_target_path

  -- `NodePublishVolume`
  unfoldable pub node_publish_act : NodePublishVolumeRequest → Handler H (Unit {0})
  node_publish_act req = do
    guard (is_some req.volume_capability) (invalid "Volume capability missing in request")
    guard (not (req.volume_id == "")) (invalid "Volume ID missing in request")
    guard (not (req.target_path == "")) (invalid "Target path missing in request")
    staging_path ← staged_act req
    guard (not (staging_path == "")) (invalid "Staging Target Path must be provided")
    not_mnt ← map_error (as_internal H) (test_act req.target_path)
    mount_act staging_path req not_mnt

  -- `NodeUnpublishVolume`
  unfoldable pub node_unpublish_act : NodeUnpublishVolumeRequest → Handler H (Unit {0})
  node_unpublish_act req = do
    guard (not (req.volume_id == "")) (invalid "Volume ID missing in request")
    guard (not (req.target_path == "")) (invalid "Target path missing in request")
    unmount_act req.target_path
    atomic (remove_path req.target_path)
    clean_up_act (ephemeral_path ns req.volume_id)

-- `NodeUnstageVolume`
unfoldable pub node_unstage_act : {H : Host} → NodeUnstageVolumeRequest → Handler H (Unit {0})
node_unstage_act req = do
  guard (not (req.volume_id == "")) (invalid "NodeUnstageVolume Volume ID must be provided")
  guard (not (req.staging_target_path == ""))
      (invalid "NodeUnstageVolume Staging Target Path must be provided")
  atomic (remove_staging req.staging_target_path)

-- The handler of a call.
unfoldable pub act : {H : Host} → NodeServer H → Call → Handler H (Unit {0})
act ns (stage req) = node_stage_act ns req
act ns (publish req) = node_publish_act ns req
act ns (unpublish req) = node_unpublish_act ns req
act ns (unstage req) = node_unstage_act req
