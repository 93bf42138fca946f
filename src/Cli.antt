-- ===== src/Cli.antt =====
-- cmd/csi-bottle: the commands `serve` and `checkpath`, and the version that the program reports.
pub mod Laws
pub mod Cobra
pub mod Program
use data_csi.Base.{String, ℕ, ◌*◌, List, [], ◌∷◌, Result, ok, err, ◌==◌, if◌then◌else◌}
use data_csi.Base.Int.{ℤ, pos}
use data_csi.Errors.{Error, wrap, os_is_not_exist}
use data_csi.Host.{Host, FileMode, regular, directory, other_mode}
use data_csi.Driver.{Driver, new_driver}

-- The word for a path that is there: what the `switch` on the mode prints.
unfoldable pub mode_word : FileMode → String
mode_word regular = "file"
mode_word directory = "directory"
mode_word other_mode = "other"

-- `checkPath` of cli/checkpath.go: the word that the command prints, or the error of `os.Stat`.
unfoldable pub check_path : (H : Host) → String → H.State → Result Error String
check_path H path s = elim (H.stat path s) [
  | err e ↦ if os_is_not_exist e then ok "not_found" else err e
  | ok mode ↦ ok (mode_word mode)
]

-- The version of `getVersionInfo` in main.go: the one that the build sets, where it sets one.
unfoldable pub get_version : String → String → String
get_version version info_version = if version == "" then info_version else version

-- The flags of `serve`.
pub record ServeFlags : Type 0 where
  pub endpoint : String
  pub name : String
  pub node_id : String
  pub storage_dir : String
  pub telemetry_url : String
  pub prune_size : String
  pub prune_period : ℤ  -- nanoseconds

-- The flags where the command line gives none. `env_or` and `env_duration_or` are those of the
-- package `config`: a variable of the environment, or the value given.
unfoldable pub default_flags : (String → String → String) → (String → ℤ → ℤ) → ServeFlags
default_flags env_or env_duration_or = record {
  endpoint = env_or "ACE_DATA_CSI_ENDPOINT" "unix:///tmp/csi/csi.sock";
  name = env_or "ACE_DATA_CSI_NAME" "bottle.csi.act3-ace.io";
  node_id = env_or "ACE_DATA_CSI_NODEID" "nodeid";
  storage_dir = env_or "ACE_DATA_CSI_STORAGEDIR" "/tmp/csi/data";
  telemetry_url = env_or "ACE_DATA_CSI_TELEMETRY" "";
  prune_size = env_or "ACE_DATA_CSI_PRUNESIZE" "10Gi";
  prune_period = env_duration_or "ACE_DATA_CSI_PRUNEPERIOD" (pos (24 * 3600000000000));
}

-- How `serve` ends before `Run`, or the driver that it runs.
pub data Served (H : Host) : Type 0 where
  refused : Error → Served H
  panics : String → Served H
  runs : Driver H → Served H

module _ (H : Host) (parse_bytes : String → Result Error ℕ) (location : String → H.Location) where
  -- The telemetry servers: the one of the flag, if it is given.
  unfoldable pub telem_hosts : String → List H.Location
  telem_hosts telemetry_url = if telemetry_url == "" then [] else location telemetry_url ∷ []

  -- `RunE` of `serve`. `parse_bytes` is `humanize.ParseBytes`, `location` makes a telemetry
  -- location of a URL.
  unfoldable pub serve : String → ServeFlags → Served H
  unfolding telem_hosts
  serve version flags = elim (parse_bytes flags.prune_size) [
    | err e ↦ refused (wrap "error parsing pruneSize" e)
    | ok size ↦
        let user = if flags.telemetry_url == "" then "" else "csi-driver" in
        elim (new_driver H flags.name flags.node_id version flags.endpoint flags.storage_dir size
          flags.prune_period (telem_hosts flags.telemetry_url) user) [
            | err panic ↦ panics panic
            | ok d ↦ runs d
          ]
  ]
