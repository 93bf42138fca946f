-- ===== src/Host.antt =====
-- What the driver calls and does not implement: the operating system, the mounter of
-- `k8s.io/utils/mount`, the library of ace-dt with its credential store and telemetry adapter, the
-- decoders, and the cluster's client. Each is an operation on a state that nothing else reads.
pub mod Laws
use data_csi.Base.{String, Bool, ℕ, List, Result}
use data_csi.Base.Dict.{Dict}
use data_csi.Base.Int.{ℤ}
use data_csi.Errors.{Error, Status}

-- `os.FileMode`, as far as the code asks.
pub data FileMode : Type 0 where
  regular directory other_mode : FileMode

-- `auth.Credential` of oras, with the fields that the code sets.
pub record Credential : Type 0 where
  pub username : String
  pub password : String

-- `authConfig`: an entry of `auths` in a docker configuration.
pub record AuthConfig : Type 0 where
  pub username : String
  pub password : String
  pub auth : String

-- `configFile`. A range over the map visits its entries in an order of its own: the list is in the
-- order in which they are visited.
pub record ConfigFile : Type 0 where
  pub auth_configs : List (String × AuthConfig)

-- The types of the libraries' values that the driver only passes on.
pub record Types : Type 1 where
  pub State : Type 0
  pub Time : Type 0
  pub Location : Type 0
  pub CredentialStore : Type 0
  pub Source : Type 0
  pub Descriptor : Type 0
  pub TelemetryEvent : Type 0
  pub KubeConfig : Type 0
  pub KubeClient : Type 0

module _ (T : Types) where
  open T use {Location, CredentialStore}

  -- The configuration of a transfer: `conf.New` and `AddConfigOverride`.
  pub record Config : Type 0 where
    pub user_agent : String
    pub credential_store : CredentialStore
    pub telem_hosts : List Location
    pub telem_user_name : String
    pub cache_path : String

-- `tbottle.PullOptions`
pub record PullOptions : Type 0 where
  pub cache_path : String
  pub labels : List String

-- `url.URL`, with the fields that the code reads.
pub record Url : Type 0 where
  pub scheme : String
  pub host : String
  pub path : String

pub record Host : Type 1 where
  pub types : Types
  pub open types use *
  -- `os`
  pub stat : String → State → Result Error FileMode
  pub mkdir_all : String → ℕ → State → Result Error (Unit {0}) × State
  pub remove_all : String → State → Result Error (Unit {0}) × State
  pub remove : String → State → Result Error (Unit {0}) × State
  -- `mount.IsNotMountPoint(mounter, path)` and `mount.Interface`
  pub is_not_mount_point : String → State → Result Error Bool
  pub mount : String → String → String → List String → State → Result Error (Unit {0}) × State
  pub unmount : String → State → Result Error (Unit {0}) × State
  -- `time.Now()`, and `time.Since(start)` as `%s` writes it
  pub now : State → Time
  pub since : Time → State → String
  -- `json.Unmarshal` and `base64.StdEncoding.DecodeString`
  pub decode_config : String → Result Error ConfigFile
  pub decode_base64 : String → Result Error String
  -- `credstore.NewMemoryStore()` and its `Put`
  pub new_memory_store : CredentialStore
  pub put : String → Credential → CredentialStore → Result Error CredentialStore
  -- `ResolveWithTelemetry`, `tbottle.Pull` and `NotifyTelemetry`
  pub resolve_with_telemetry :
      Config types
      → String
      → String
      → State
      → Result Error (Source × Descriptor × TelemetryEvent) × State
  pub pull : Source → Descriptor → String → PullOptions → State → Result Error (Unit {0}) × State
  pub notify_telemetry :
      List Location
      → String
      → Source
      → Descriptor
      → String
      → TelemetryEvent
      → State
      → Result Error String × State
  -- `cache.Prune(ctx, dir, maxSize)`
  pub prune_cache : String → ℤ → State → Result Error (Unit {0}) × State
  -- `url.Parse` and `net.Listen(scheme, address)`
  pub parse_url : String → Result Error Url
  pub listen : String → String → State → Result Error (Unit {0}) × State
  -- `restclient.InClusterConfig()` and `kubernetes.NewForConfig(config)`
  pub in_cluster_config : Result Error KubeConfig
  pub new_for_config : KubeConfig → Result Error KubeClient
  -- how `Error()` of a gRPC status writes it
  pub status_text : Status → String
