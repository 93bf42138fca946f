-- ===== src/Event.antt =====
-- pkg/data/event.go: the Kubernetes events about a pod, and the recorder that sends them.
use data_csi.Base.{String, Option, none, some, ok, err}
use data_csi.Base.Dict.{Dict, get_or_empty}
use data_csi.Host.{Host}

abbrev pub bottle_pulled : String
bottle_pulled = "BottlePulled"

abbrev pub bottle_pulling : String
bottle_pulling = "BottlePulling"

abbrev pub bottle_failed : String
bottle_failed = "BottleFailed"

-- The pod that an event is about.
pub record PodReference : Type 0 where
  pub name : String
  pub namespace : String
  pub uid : String

unfoldable pub get_pod_reference : Dict String → PodReference
get_pod_reference volume_context = record {
  name = get_or_empty "csi.storage.k8s.io/pod.name" volume_context;
  namespace = get_or_empty "csi.storage.k8s.io/pod.namespace" volume_context;
  uid = get_or_empty "csi.storage.k8s.io/pod.uid" volume_context;
}

-- `corev1.EventSource`
pub record EventSource : Type 0 where
  pub host : String
  pub component : String

pub data EventType : Type 0 where
  normal warning : EventType

-- What `Eventf` sends, in the name of the recorder's source.
pub record Event : Type 0 where
  pub source : EventSource
  pub object : PodReference
  pub event_type : EventType
  pub reason : String
  pub message : String

-- A recorder, which is its source, or nil outside a cluster and where no client can be built.
unfoldable pub create_event_recorder : Host → String → Option EventSource
create_event_recorder H nodeid = elim H.in_cluster_config [
  | err e ↦ none
  | ok kube_config ↦ elim (H.new_for_config kube_config) [
    | err e ↦ none
    | ok kube_client ↦ some (record { host = nodeid; component = "csi-bottle" })
  ]
]
