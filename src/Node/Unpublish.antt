-- ===== src/Node/Unpublish.antt =====
-- pkg/data/node.go: `NodeUnpublishVolume`.
pub mod Laws
use data_csi.Base.{
  String, Bool, Result, ok, err, Exec, guard, map_error, ◌>>=◌, ◌>>◌, not, ◌==◌, if◌then◌else◌,
}
use data_csi.Errors.{Error, Status, is_not_exist}
use data_csi.Csi.{NodeUnpublishVolumeRequest}
use data_csi.Host.{Host, FileMode}
use data_csi.Node.Server.{NodeServer, World, on_host, as_internal, invalid}
use data_csi.Node.Publish.{ephemeral_path}

-- `if err != nil && !errors.Is(err, fs.ErrNotExist) { return nil, internal(err) }`
abbrev pub unless_missing :
    {H : Host} → Result Error (Unit {0}) × World H → Result Status (Unit {0}) × World H
unless_missing (ok _, w) = (ok tt, w)
unless_missing {H} (err e, w) = if is_not_exist e then (ok tt, w) else (err (as_internal H e), w)

module _ {H : Host} where
  -- `os.RemoveAll(path)`; that nothing is there to remove is no error.
  unfoldable pub remove_path : String → Exec (World H) Status (Unit {0})
  remove_path path w = unless_missing (on_host (H.remove_all path) w)

  -- The unmount, left out where the target is no mount point or does not exist.
  unfoldable pub unmount_target : String → Exec (World H) Status (Unit {0})
  unmount_target target_path w = elim (H.is_not_mount_point target_path w.host) [
    | err e ↦ if is_not_exist e then (ok tt, w) else (err (as_internal H e), w)
    | ok not_mnt ↦
        if not not_mnt
        then map_error (as_internal H) (on_host (H.unmount target_path)) w
        else (ok tt, w)
  ]

  -- The removal of an ephemeral volume's directory, where `os.Stat` finds it.
  unfoldable pub clean_up : String → Exec (World H) Status (Unit {0})
  clean_up staging_path w = elim (H.stat staging_path w.host) [
    | ok _ ↦ remove_path staging_path w
    | err e ↦ (ok tt, w)
  ]

-- `NodeUnpublishVolume`
unfoldable pub node_unpublish_volume :
    {H : Host} → NodeServer H → NodeUnpublishVolumeRequest → Exec (World H) Status (Unit {0})
node_unpublish_volume ns req = do
  guard (not (req.volume_id == "")) (invalid "Volume ID missing in request")
  guard (not (req.target_path == "")) (invalid "Target path missing in request")
  unmount_target req.target_path
  remove_path req.target_path
  clean_up (ephemeral_path ns req.volume_id)
