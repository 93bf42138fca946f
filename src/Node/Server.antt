-- ===== src/Node/Server.antt =====
-- pkg/data/node.go: `NodeServer`, what it changes, its constructor, and the calls that only answer.
use data_csi.Base.{
  String, ℕ, List, [], ◌∷◌, ◌++◌, Option, none, some, Result, ok, err, Exec, ◌==◌, if◌then◌else◌,
}
use data_csi.Errors.{Code, Status, Error, internal, message}
use data_csi.Csi.{NodeServiceCapability, stage_unstage_volume, NodeGetInfoResponse}
use data_csi.Event.{Event, EventSource, EventType, PodReference, create_event_recorder}
use data_csi.Host.{Host}
use data_csi.Go.Filepath.{join}

module _ (H : Host) where
  pub record NodeServer : Type 0 where
    pub name : String
    pub node_id : String
    pub ephemeral_staging_dir : String
    pub cache_dir : String
    pub telem_hosts : List H.Location
    pub telem_user_name : String
    -- the path of the program that mounts
    pub mounter : String
    pub recorder : Option EventSource

  -- What a call may change: the machine, the events sent so far, and the counter of bottles.
  pub record World : Type 0 where
    pub host : H.State
    pub events : List Event
    pub bottle_counter : ℕ

-- `NewNodeServer`. An error is the text of a panic.
unfoldable pub new_node_server :
    (H : Host) → String → String → String → List H.Location → String → Result String (NodeServer H)
new_node_server H name node_id storage_dir telem_hosts telem_user_name =
    if name == ""
    then err "Driver is missing name"
    else if node_id == ""
    then err "Driver is missing nodeID"
    else ok (record {
      name = name;
      node_id = node_id;
      ephemeral_staging_dir = join (storage_dir ∷ "ephemeral" ∷ "staging" ∷ []);
      cache_dir = join (storage_dir ∷ "cache" ∷ []);
      telem_hosts = telem_hosts;
      telem_user_name = telem_user_name;
      mounter = "/busybox/mount";
      recorder = create_event_recorder H node_id;
    })

-- `NodeGetCapabilities`
unfoldable pub node_get_capabilities : List NodeServiceCapability
node_get_capabilities = stage_unstage_volume ∷ []

module _ {H : Host} where
  -- `NodeGetInfo`
  unfoldable pub node_get_info : NodeServer H → NodeGetInfoResponse
  node_get_info ns = record {
    node_id = ns.node_id;
    accessible_topology = (ns.name, ns.node_id) ∷ [];
  }

  -- An operation of the machine in a call.
  abbrev pub on_host : {A : Type 0} → (H.State → Result Error A × H.State) → Exec (World H) Error A
  on_host f w = let (r, h) = f w.host in (r, record w { host = h })

  -- `if ns.recorder != nil { ns.recorder.Eventf(...) }`
  unfoldable pub emit :
      NodeServer H → PodReference → EventType → String → String → World H → World H
  emit ns object event_type reason text w = elim ns.recorder [
    | none ↦ w
    | some source ↦ record w {
      events =
          w.events
          ++ (record {
            source = source;
            object = object;
            event_type = event_type;
            reason = reason;
            message = text;
          }
              ∷ []);
    }
  ]

-- `status.Error(codes.InvalidArgument, text)`
abbrev pub invalid : String → Status
invalid text = record { code = Code.invalid_argument; message = text }

-- `status.Error(codes.Internal, err.Error())`
abbrev pub as_internal : Host → Error → Status
as_internal H e = record { code = internal; message = message H.status_text e }
