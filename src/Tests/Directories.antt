-- ===== src/Tests/Directories.antt =====
-- The directories of ephemeral volumes.
use data_csi.Base.{String, ◌≡◌, ◌≢◌, ◌↔◌, refl, false, [], ◌∷◌, none, ok, ◌==◌, ap}
use mathlib.Core.Bool.{true≢false}
use data_csi.Go.Strings.{split, join_with, contains}
use data_csi.Go.Filepath.{join, clean, elements, walk, keep, up, stack_text, render, is_abs}
use data_csi.Go.Filepath.Normal.{IsElement}
use data_csi.Event.{create_event_recorder}
use data_csi.Node.Server.{NodeServer, new_node_server}
use data_csi.Node.Publish.{ephemeral_path}
use data_csi.Node.Paths.{volume_dirs_apart, volume_dir_escapes}
use data_csi.Tests.Machine.{machine}

abbrev made_ns : NodeServer machine
made_ns = record {
  name = "name";
  node_id = "node";
  ephemeral_staging_dir = "/data/ephemeral/staging";
  cache_dir = "/data/cache";
  telem_hosts = [];
  telem_user_name = "";
  mounter = "/busybox/mount";
  recorder = none;
}

ns_is_made : new_node_server machine "name" "node" "/data" [] "" ≡ ok made_ns
unfolding new_node_server create_event_recorder join clean elements walk keep up stack_text render
    is_abs join_with split ◌==◌
ns_is_made = refl

abbrev vol : String
vol = "vol"

vol-IsElement : IsElement "vol"
unfolding ◌==◌ contains
vol-IsElement = record {
  ne_empty = λ e. true≢false (ap (λ t. t == "vol") e);
  ne_dot = λ e. true≢false (ap (λ t. t == "vol") e);
  ne_dots = λ e. true≢false (ap (λ t. t == "vol") e);
  no_slash = refl;
}

volume_dirs_apart_example :
    ((ephemeral_path made_ns "vol" ≡ ephemeral_path made_ns "vol") ↔ (vol ≡ vol))
    × (ephemeral_path made_ns "vol" ≢ "/data/cache")
volume_dirs_apart_example =
    volume_dirs_apart "name" "node" "/data" [] "" ns_is_made "vol" "vol" vol-IsElement vol-IsElement

vol-ne-empty : vol ≢ ""
vol-ne-empty = vol-IsElement.ne_empty

vol_is_relative : is_abs "vol" ≡ false
unfolding is_abs ◌==◌
vol_is_relative = refl

volume_dir_escapes_example : ephemeral_path made_ns "../../vol" ≡ join ("/data" ∷ "vol" ∷ [])
volume_dir_escapes_example =
    volume_dir_escapes "name" "node" "/data" [] "" ns_is_made "vol" vol-ne-empty vol_is_relative
