-- ===== src/Controller.antt =====
-- pkg/data/controller.go: the controller service, which keeps the names of the volumes by their ids.
pub mod Laws
pub mod History
use data_csi.Base.{
  String, List, [], ◌∷◌, Bool, true, false, Option, none, some, Result, ok, err, Exec, guard, ◌>>=◌,
  ◌>>◌, not, is_some, ◌==◌, if◌then◌else◌,
}
use data_csi.Base.Dict.{Dict, lookup, insert, erase}
use data_csi.Base.Int.{ℤ, pos}
use data_csi.Errors.{Code, Status, unimplemented, not_found}
use data_csi.Csi.{
  ControllerServiceCapability, publish_readonly, AccessType, block, mount, single_node_reader_only,
  VolumeCapability, CapacityRange, CreateVolumeRequest, Volume, DeleteVolumeRequest,
  ValidateVolumeCapabilitiesRequest, Confirmed,
}
use data_csi.Node.Server.{invalid}

-- `ControllerServer` without its map, which the calls change.
pub record ControllerServer : Type 0 where
  pub name : String
  pub node_id : String

-- `volumes sync.Map`: names by volume ids. Each handler makes one call of it at most.
abbrev pub Volumes : Type 0
Volumes = Dict String

-- `NewControllerServer`. An error is the text of a panic.
unfoldable pub new_controller_server : String → String → Result String ControllerServer
new_controller_server name node_id =
    if name == ""
    then err "Driver is missing name"
    else if node_id == ""
    then err "Driver is missing nodeID"
    else ok (record { name = name; node_id = node_id })

-- `ControllerGetCapabilities`
unfoldable pub controller_get_capabilities : List ControllerServiceCapability
controller_get_capabilities = publish_readonly ∷ []

-- `cap.GetBlock() != nil`
abbrev pub is_block : Option VolumeCapability → Bool
is_block none = false
is_block (some cap) = elim cap.access_type [ block ↦ true | _ ↦ false ]

-- The loop over the capabilities.
abbrev pub has_block : List (Option VolumeCapability) → Bool
has_block [] = false
has_block (cap ∷ caps) = if is_block cap then true else has_block caps

-- `req.GetCapacityRange().GetRequiredBytes()`
abbrev pub get_required_bytes : Option CapacityRange → ℤ
get_required_bytes none = pos 0
get_required_bytes (some range) = range.required_bytes

-- `cs.volumes.Store(volumeID, name)`
store : String → String → Exec Volumes Status (Unit {0})
unfolding insert
store volume_id name volumes = (ok tt, insert volume_id name volumes)

unfoldable pub created : ControllerServer → String → CreateVolumeRequest → Volume
created cs volume_id req = record {
  volume_id = volume_id;
  capacity_bytes = get_required_bytes req.capacity_range;
  volume_context = req.parameters;
  content_source = req.volume_content_source;
  accessible_topology = ((cs.name, cs.node_id) ∷ []) ∷ [];
}

-- `CreateVolume`. The argument `uuid` is what `uuid.New().String()` gives.
unfoldable pub create_volume :
    ControllerServer → String → CreateVolumeRequest → Exec Volumes Status Volume
unfolding store
create_volume cs uuid req = do
  guard (not (req.name == "")) (invalid "Name missing in request")
  guard (is_some req.volume_capabilities) (invalid "Volume Capabilities missing in request")
  guard (not (elim req.volume_capabilities [ none ↦ false | some caps ↦ has_block caps ]))
      (record { code = unimplemented; message = "Block Volume not supported" })
  store uuid req.name
  λ volumes. (ok (created cs uuid req), volumes)

-- `DeleteVolume`
unfoldable pub delete_volume : DeleteVolumeRequest → Exec Volumes Status (Unit {0})
delete_volume req = do
  guard (not (req.volume_id == "")) (invalid "Volume ID missing in request")
  λ volumes. (ok tt, erase req.volume_id volumes)

-- The capability that every answer confirms.
abbrev pub read_only_mount : VolumeCapability
read_only_mount = record {
  access_type = mount (record { fs_type = ""; mount_flags = [] });
  access_mode = single_node_reader_only;
}

-- `ValidateVolumeCapabilities`
unfoldable pub validate_volume_capabilities :
    ValidateVolumeCapabilitiesRequest → Exec Volumes Status Confirmed
validate_volume_capabilities req = do
  guard (not (req.volume_id == ""))
      (invalid "ValidateVolumeCapabilities Volume ID must be provided")
  guard (is_some req.volume_capabilities)
      (invalid "ValidateVolumeCapabilities Volume Capabilities must be provided")
  λ volumes. elim (lookup req.volume_id volumes) [
    | none ↦ (
      err (record {
        code = not_found;
        message = "ValidateVolumeCapabilities Volume ID does not exist";
      }),
      volumes,
    )
    | some name ↦ (
      ok (record {
        volume_capabilities = read_only_mount ∷ [];
        volume_context = req.volume_context;
        parameters = req.parameters;
      }),
      volumes,
    )
  ]
