-- ===== src/Tests/Requests.antt =====
-- A node service and requests for the tests.
use data_csi.Base.{String, true, false, [], ◌∷◌, some}
use data_csi.Base.Dict.{Dict}
use data_csi.Csi.{
  AccessMode, AccessType, VolumeCapability, NodeStageVolumeRequest, NodePublishVolumeRequest,
  NodeUnpublishVolumeRequest, NodeUnstageVolumeRequest,
}
use data_csi.Node.Server.{NodeServer, World}
use data_csi.Node.Publish.{node_publish_volume}
use data_csi.Tests.Machine.{machine}

abbrev pub ns : NodeServer machine
ns = record {
  name = "bottle.csi.act3-ace.io";
  node_id = "node";
  ephemeral_staging_dir = "/data/ephemeral/staging";
  cache_dir = "/data/cache";
  telem_hosts = [];
  telem_user_name = "";
  mounter = "/busybox/mount";
  recorder = some (record { host = "node"; component = "csi-bottle" });
}

-- A machine with no directory and no mount.
abbrev pub empty : World machine
empty = record {
  host = record { mounted = λ p. 0; there = λ p. false; lost = λ p. 0 };
  events = [];
  bottle_counter = 0;
}

abbrev pub capability : VolumeCapability
capability = record {
  access_type = AccessType.no_access;
  access_mode = AccessMode.single_node_reader_only;
}

abbrev pub context : Dict String
context = ("bottle", "registry/bottle:v1") ∷ ("selector", "a=1|b=2") ∷ []

abbrev pub secrets : Dict String
secrets = (".dockerconfigjson", "{}") ∷ []

abbrev pub stage_request : NodeStageVolumeRequest
stage_request = record {
  volume_id = "vol";
  staging_target_path = "/staging";
  volume_capability = some capability;
  volume_context = context;
  secrets = secrets;
}

abbrev pub publish_request : NodePublishVolumeRequest
publish_request = record {
  volume_id = "vol";
  staging_target_path = "/staging";
  target_path = "/target";
  volume_capability = some capability;
  readonly = true;
  volume_context = context;
  secrets = secrets;
}

abbrev pub unpublish_request : NodeUnpublishVolumeRequest
unpublish_request = record { volume_id = "vol"; target_path = "/target" }

abbrev pub unstage_request : NodeUnstageVolumeRequest
unstage_request = record { volume_id = "vol"; staging_target_path = "/staging" }

-- The machine after a publication.
abbrev pub published : World machine
published = (node_publish_volume ns publish_request empty).1
