-- ===== src/Node/Unstage.antt =====
-- pkg/data/node.go: `NodeUnstageVolume`. It reads nothing of the server.
use data_csi.Base.{String, ok, err, Exec, guard, ◌>>◌, not, ◌==◌, if◌then◌else◌}
use data_csi.Errors.{Status, os_is_not_exist}
use data_csi.Csi.{NodeUnstageVolumeRequest}
use data_csi.Host.{Host}
use data_csi.Node.Server.{World, on_host, as_internal, invalid}

module _ {H : Host} where
  -- `os.RemoveAll(stagingPath)`; an error for which `os.IsNotExist` holds is passed over.
  unfoldable pub remove_staging : String → Exec (World H) Status (Unit {0})
  remove_staging staging_path w =
      let (r, w') = on_host (H.remove_all staging_path) w in
      elim r [
        | ok _ ↦ (ok tt, w')
        | err e ↦ if os_is_not_exist e then (ok tt, w') else (err (as_internal H e), w')
      ]

  -- `NodeUnstageVolume`
  unfoldable pub node_unstage_volume : NodeUnstageVolumeRequest → Exec (World H) Status (Unit {0})
  node_unstage_volume req = do
    guard (not (req.volume_id == "")) (invalid "NodeUnstageVolume Volume ID must be provided")
    guard (not (req.staging_target_path == ""))
        (invalid "NodeUnstageVolume Staging Target Path must be provided")
    remove_staging req.staging_target_path
