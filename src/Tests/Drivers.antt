-- ===== src/Tests/Drivers.antt =====
-- The driver and the commands on the machine of the tests.
use Prim.Native.Nat.{◌+◌, ◌<◌, ◌≤◌, ◌^◌}
use mathlib.Core.Bool.{true≢false}
use data_csi.Base.{
  arith, String, ℕ, zero, suc, ◌≡◌, ◌≢◌, ◌⊎◌, refl, true, [], ◌∷◌, Option, none, some, Result, ok,
  err, is_ok, ◌==◌, ap, if◌then◌else◌,
}
use data_csi.Base.Int.{ℤ, pos, negsuc}
use data_csi.Errors.{Error, text, os_is_not_exist}
use data_csi.Event.{create_event_recorder}
use data_csi.Go.Strings.{split, join_with}
use data_csi.Go.Filepath.{
  join, dir, clean, elements, walk, keep, up, stack_text, render, is_abs, up_to_slash,
}
use data_csi.Host.{Url}
use data_csi.Identity.{new_identity_server, get_plugin_info}
use data_csi.Node.Server.{node_get_info, new_node_server}
use data_csi.Controller.{new_controller_server, created}
use data_csi.Driver.{Driver, new_driver}
use data_csi.Driver.Run.{prune, address, open_listener}
use data_csi.Driver.Laws.{created_topology, open_listener_ok, prune-prune_cache}
use data_csi.Cli.{ServeFlags, default_flags, runs, serve}
use data_csi.Cli.Laws.{serve_defaults}
use data_csi.Tests.Machine.{Disk, disk_stat, disk_remove_all, is_there, machine}
use data_csi.Tests.Controllers.{cs, create_request}

abbrev pub disk : Disk
disk = record { mounted = λ p. 0; there = λ p. p == "/"; lost = λ p. 0 }

abbrev pub driver : Driver machine
driver = record {
  endpoint = "unix:///csi.sock";
  prune_size = 10000000000;
  prune_period = pos 1;
  telem_hosts = [];
  telem_user_name = "";
  ids = record { name = "name"; version = "v1" };
  cs = cs;
  ns = record {
    name = "name";
    node_id = "node";
    ephemeral_staging_dir = "/data/ephemeral/staging";
    cache_dir = "/data/cache";
    telem_hosts = [];
    telem_user_name = "";
    mounter = "/busybox/mount";
    recorder = none;
  };
}

driver_is_made :
    new_driver machine "name" "node" "v1" "unix:///csi.sock" "/data" 10000000000 (pos 1) [] ""
    ≡ ok driver
unfolding new_driver new_identity_server new_controller_server new_node_server create_event_recorder
    join clean elements walk keep up stack_text render is_abs join_with split ◌==◌
driver_is_made = refl

prune-prune_cache_example :
    (limit : ℤ) × (((10000000000 < 2 ^ 63) × (limit ≡ pos 10000000000))
      ⊎ ((2 ^ 63 ≤ 10000000000) × ((n : ℕ) × (limit ≡ negsuc n) × (n + 1 + 10000000000 ≡ 2 ^ 64))))
    × (let (r, left) = machine.prune_cache "/data/cache" limit disk in
        ((prune driver disk).1 ≡ left) × (is_ok (prune driver disk).0 ≡ is_ok r))
prune-prune_cache_example = prune-prune_cache driver disk (omega arith)

created_topology_example :
    ((created driver.cs "one" create_request).accessible_topology
      ≡ (node_get_info driver.ns).accessible_topology ∷ [])
    × ((node_get_info driver.ns).accessible_topology
        ≡ ((get_plugin_info driver.ids).name, (node_get_info driver.ns).node_id) ∷ [])
created_topology_example =
    created_topology machine "name" "node" "v1" "unix:///csi.sock" "/data" 10000000000 (pos 1) [] ""
      driver "one" create_request driver_is_made

listener_opens : is_ok (open_listener driver disk).0 ≡ true
unfolding open_listener address disk_stat disk_remove_all is_there os_is_not_exist dir up_to_slash
    clean elements walk keep up stack_text render is_abs join_with split ◌==◌
listener_opens = refl

open_listener_ok_example :
    (u : Url) × (machine.parse_url "unix:///csi.sock" ≡ ok u)
    × (((u.scheme ≡ "unix")
          × (let (r, s') = disk_remove_all u.path disk in
              ((e : Error) → r ≡ err e → os_is_not_exist e ≡ true)
              × (is_ok (disk_stat (dir u.path) s') ≡ true)
              × (open_listener driver disk ≡ (ok tt, s'))))
        ⊎ ((u.scheme ≡ "tcp") × (open_listener driver disk ≡ (ok tt, disk))))
open_listener_ok_example = open_listener_ok driver disk listener_opens

-- A handler that counts its calls and fails at the request 0.
abbrev count_calls : ℕ → ℕ → (String × Option Error) × ℕ
count_calls req n = elim req [
  | zero ↦ (("", some (text "zero")), suc n)
  | suc m ↦ (("done", none), suc n)
]

-- It reads the default size, and refuses all else.
unfoldable pub parse_size : String → Result Error ℕ
parse_size s = if s == "10Gi" then ok 10737418240 else err (text "no size")

default_size_read : parse_size "10Gi" ≡ ok 10737418240
unfolding parse_size ◌==◌
default_size_read = refl

abbrev pub version : String
version = "v1.2.3"

version-ne-empty : version ≢ ""
unfolding ◌==◌
version-ne-empty e = true≢false (ap (λ t. t == "v1.2.3") e)

abbrev pub flags : ServeFlags
flags = default_flags (λ variable value. value) (λ variable value. value)

-- The driver that it runs.
pub default_run :
    (d : Driver machine) × (serve machine parse_size (λ url. url) version flags ≡ runs d)
default_run =
    let (d, run_d, _, _) =
      serve_defaults machine parse_size (λ url. url) version version-ne-empty default_size_read in
    (d, run_d)

abbrev pub served : Driver machine
served = default_run.0
