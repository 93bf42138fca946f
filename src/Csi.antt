-- ===== src/Csi.antt =====
-- The messages of the container storage interface that the handlers read and answer, with the
-- fields that the code uses. A pointer that may be nil is an `Option`; a getter on a nil message
-- gives the zero value.
use data_csi.Base.{String, Bool, Option, List}
use data_csi.Base.Int.{ℤ}
use data_csi.Base.Dict.{Dict}

pub record MountVolume : Type 0 where
  pub fs_type : String
  pub mount_flags : List String

pub data AccessType : Type 0 where
  no_access : AccessType
  block : AccessType
  mount : MountVolume → AccessType

pub data AccessMode : Type 0 where
  unknown single_node_writer single_node_reader_only multi_node_reader_only : AccessMode
  multi_node_single_writer multi_node_multi_writer : AccessMode

pub record VolumeCapability : Type 0 where
  pub access_type : AccessType
  pub access_mode : AccessMode

pub record NodeStageVolumeRequest : Type 0 where
  pub volume_id : String
  pub staging_target_path : String
  pub volume_capability : Option VolumeCapability
  pub volume_context : Dict String
  pub secrets : Dict String

pub record NodePublishVolumeRequest : Type 0 where
  pub volume_id : String
  pub staging_target_path : String
  pub target_path : String
  pub volume_capability : Option VolumeCapability
  pub readonly : Bool
  pub volume_context : Dict String
  pub secrets : Dict String

pub record NodeUnpublishVolumeRequest : Type 0 where
  pub volume_id : String
  pub target_path : String

pub record NodeUnstageVolumeRequest : Type 0 where
  pub volume_id : String
  pub staging_target_path : String

pub data NodeServiceCapability : Type 0 where
  stage_unstage_volume : NodeServiceCapability

pub data ControllerServiceCapability : Type 0 where
  publish_readonly create_delete_volume publish_unpublish_volume : ControllerServiceCapability

pub data PluginCapability : Type 0 where
  controller_service volume_accessibility_constraints : PluginCapability

-- The segments of a topology.
abbrev pub Topology : Type 0
Topology = Dict String

pub record NodeGetInfoResponse : Type 0 where
  pub node_id : String
  pub accessible_topology : Topology

pub record GetPluginInfoResponse : Type 0 where
  pub name : String
  pub vendor_version : String

pub record CapacityRange : Type 0 where
  pub required_bytes : ℤ
  pub limit_bytes : ℤ

pub data VolumeContentSource : Type 0 where
  snapshot volume : String → VolumeContentSource

-- A repeated field is a slice, which may be nil; so may each capability in it.
pub record CreateVolumeRequest : Type 0 where
  pub name : String
  pub capacity_range : Option CapacityRange
  pub volume_capabilities : Option (List (Option VolumeCapability))
  pub parameters : Dict String
  pub volume_content_source : Option VolumeContentSource

pub record Volume : Type 0 where
  pub volume_id : String
  pub capacity_bytes : ℤ
  pub volume_context : Dict String
  pub content_source : Option VolumeContentSource
  pub accessible_topology : List Topology

pub record DeleteVolumeRequest : Type 0 where
  pub volume_id : String

pub record ValidateVolumeCapabilitiesRequest : Type 0 where
  pub volume_id : String
  pub volume_capabilities : Option (List (Option VolumeCapability))
  pub volume_context : Dict String
  pub parameters : Dict String

pub record Confirmed : Type 0 where
  pub volume_capabilities : List VolumeCapability
  pub volume_context : Dict String
  pub parameters : Dict String
