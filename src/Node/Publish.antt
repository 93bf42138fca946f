-- ===== src/Node/Publish.antt =====
-- pkg/data/node.go: `NodePublishVolume`.
pub mod Laws
use data_csi.Base.{
  String, List, [], ◌∷◌, ◌++◌, Bool, true, false, Result, ok, err, Exec, guard, pure, gets,
  map_error, ◌>>=◌, ◌>>◌, not, is_some, ◌==◌, if◌then◌else◌,
}
use data_csi.Base.Dict.{Dict, get_or_empty}
use data_csi.Errors.{Error, Status, os_is_not_exist}
use data_csi.Csi.{NodePublishVolumeRequest, VolumeCapability}
use data_csi.Host.{Host}
use data_csi.Go.Filepath.{join}
use data_csi.Node.Server.{NodeServer, World, on_host, as_internal, invalid}
use data_csi.Node.Stage.{stage_volume}

-- The options of the bind mount.
unfoldable pub mount_options : Bool → List String
mount_options readonly =
    if readonly then ("bind" ∷ "noexec" ∷ []) ++ ("ro" ∷ []) else "bind" ∷ "noexec" ∷ []

-- `req.GetVolumeContext()["csi.storage.k8s.io/ephemeral"] == "true"`
unfoldable pub is_ephemeral : Dict String → Bool
is_ephemeral volume_context = get_or_empty "csi.storage.k8s.io/ephemeral" volume_context == "true"

-- `filepath.Join(ns.ephemeralStagingDir, volumeID)`
unfoldable pub ephemeral_path : {H : Host} → NodeServer H → String → String
ephemeral_path ns volume_id = join (ns.ephemeral_staging_dir ∷ volume_id ∷ [])

module _ {H : Host} where
  -- `mount.IsNotMountPoint(ns.mounter, targetPath)`, with a missing directory made.
  unfoldable pub not_mounted : String → Exec (World H) Error Bool
  not_mounted target_path w = elim (H.is_not_mount_point target_path w.host) [
    | ok not_mnt ↦ (ok not_mnt, w)
    | err e ↦
        if os_is_not_exist e
        then (do on_host (H.mkdir_all target_path 0o750); pure true) w
        else (err e, w)
  ]

module _ {H : Host} (ns : NodeServer H) where
  -- The path to mount: that of the request, or for an ephemeral volume one that is staged now.
  unfoldable pub staged_path : NodePublishVolumeRequest → Exec (World H) Status String
  staged_path req =
      if is_ephemeral req.volume_context
      then (do
        map_error (as_internal H)
            (stage_volume ns (ephemeral_path ns req.volume_id) req.volume_context req.secrets)
        pure (ephemeral_path ns req.volume_id))
      else pure req.staging_target_path

  -- The bind mount, left out where the target is mounted already.
  unfoldable pub mount_target : String → NodePublishVolumeRequest → Exec (World H) Status (Unit {0})
  unfolding not_mounted mount_options
  mount_target staging_path req = do
    not_mnt ← map_error (as_internal H) (not_mounted req.target_path)
    if not not_mnt
        then pure tt
        else map_error (as_internal H)
            (on_host (H.mount staging_path req.target_path "" (mount_options req.readonly)))

  -- `NodePublishVolume`
  unfoldable pub node_publish_volume : NodePublishVolumeRequest → Exec (World H) Status (Unit {0})
  node_publish_volume req = do
    guard (is_some req.volume_capability) (invalid "Volume capability missing in request")
    guard (not (req.volume_id == "")) (invalid "Volume ID missing in request")
    guard (not (req.target_path == "")) (invalid "Target path missing in request")
    staging_path ← staged_path req
    guard (not (staging_path == "")) (invalid "Staging Target Path must be provided")
    mount_target staging_path req
