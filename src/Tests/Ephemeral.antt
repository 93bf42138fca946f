-- ===== src/Tests/Ephemeral.antt =====
-- An ephemeral volume on the machine of the tests.
use data_csi.Base.{String, ◌∷◌}
use data_csi.Csi.{NodePublishVolumeRequest}
use data_csi.Node.Server.{World}
use data_csi.Node.Publish.{node_publish_volume}
use data_csi.Tests.Machine.{machine}
use data_csi.Tests.Requests.{ns, empty, context, publish_request}

abbrev ephemeral_request : NodePublishVolumeRequest
ephemeral_request = record publish_request {
  staging_target_path = "";
  volume_context = ("csi.storage.k8s.io/ephemeral", "true") ∷ context;
}

abbrev target : String
target = "/target"

-- The machine after the publication.
abbrev mounted : World machine
mounted = (node_publish_volume ns ephemeral_request empty).1
