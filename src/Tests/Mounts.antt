-- ===== src/Tests/Mounts.antt =====
-- Publishing and unpublishing on the machine of the tests.
use Prim.Native.Nat.{max}
use data_csi.Base.{
  String, ◌≤◌, ◌<◌, ◌≡◌, ◌⊎◌, refl, true, false, Bool, List, [], ◌∷◌, ok, err, is_ok, arith, ◌==◌,
  if◌then◌else◌,
}
use data_csi.Errors.{Error, is_not_exist, os_is_not_exist}
use data_csi.Go.Strings.{split, join_with}
use data_csi.Go.Filepath.{join, clean, elements, walk, keep, up, stack_text, render, is_abs}
use data_csi.Node.Server.{World, emit}
use data_csi.Node.Stage.{stage_volume, node_stage_volume}
use data_csi.Node.Credentials.{parse_auth, credential, store_all, load_credentials}
use data_csi.Node.Publish.{
  is_ephemeral, ephemeral_path, mount_options, not_mounted, staged_path, mount_target,
  node_publish_volume,
}
use data_csi.Node.Publish.Laws.{depth-node_publish_volume, node_publish_volume_again}
use data_csi.Node.Unpublish.{remove_path, unmount_target, clean_up, node_unpublish_volume}
use data_csi.Node.Unpublish.Laws.Cleanup.{node_unpublish_volume_clears}
use data_csi.Node.Lifecycle.{
  Call, stage, publish, unpublish, unstage, serve, answer, some_publishes_at, serve_single_mount,
  serve_round_trip,
}
use data_csi.Tests.Machine.{
  Disk, is_there, disk_stat, disk_test, disk_mount, disk_unmount, disk_mkdir_all, disk_remove_all,
  decode_auth, machine, mount_laws, removal_laws,
}
use data_csi.Tests.Requests.{
  ns, empty, context, stage_request, publish_request, unpublish_request, unstage_request, published,
}

abbrev calls : List Call
calls =
    stage stage_request
    ∷ publish publish_request
    ∷ publish publish_request
    ∷ unpublish unpublish_request
    ∷ unstage unstage_request
    ∷ []

-- After the first publication the target has one mount, and the second adds none.
published_once :
    (serve ns (publish publish_request ∷ publish publish_request ∷ []) empty).host.mounted "/target"
    ≡ 1
unfolding serve answer node_publish_volume mount_target staged_path is_ephemeral not_mounted
    mount_options disk_test disk_mount disk_mkdir_all is_there os_is_not_exist ◌==◌
published_once = refl

serve_single_mount_example : (serve ns calls empty).host.mounted "/target" ≤ 1
serve_single_mount_example = serve_single_mount mount_laws ns calls empty "/target" (omega arith)

elsewhere : some_publishes_at "/other" calls ≡ false
unfolding ◌==◌
elsewhere = refl

depth-node_publish_volume_example :
    let (r, w') = node_publish_volume ns publish_request empty in
    (is_ok r ≡ true → w'.host.mounted "/target" ≡ (if "/target" == "/target" then max 0 1 else 0))
    × (0 ≤ w'.host.mounted "/target")
    × (w'.host.mounted "/target" ≤ (if "/target" == "/target" then max 0 1 else 0))
depth-node_publish_volume_example =
    depth-node_publish_volume mount_laws ns publish_request empty "/target"

publish_succeeds : is_ok (node_publish_volume ns publish_request empty).0 ≡ true
unfolding node_publish_volume mount_target staged_path is_ephemeral not_mounted mount_options
    disk_test disk_mount disk_mkdir_all is_there os_is_not_exist ◌==◌
publish_succeeds = refl

not_ephemeral : is_ephemeral context ≡ false
unfolding is_ephemeral ◌==◌
not_ephemeral = refl

test_tells : (p : String) (s : Disk) → 0 < s.mounted p → (b : Bool) × (disk_test p s ≡ ok b)
unfolding disk_test is_there
test_tells p s h = (false, ground arith)

node_publish_volume_again_example :
    node_publish_volume ns publish_request published ≡ (ok tt, published)
node_publish_volume_again_example =
    node_publish_volume_again mount_laws ns publish_request empty test_tells not_ephemeral
      publish_succeeds

test_unpublish : is_ok (node_unpublish_volume ns unpublish_request published).0 ≡ true
unfolding node_unpublish_volume unmount_target remove_path clean_up node_publish_volume mount_target
    staged_path is_ephemeral not_mounted mount_options disk_test disk_mount disk_mkdir_all
    disk_unmount disk_remove_all disk_stat is_there os_is_not_exist is_not_exist ephemeral_path join
    clean elements walk keep up stack_text render is_abs join_with split ◌==◌
test_unpublish = refl

one_mount : published.host.mounted "/target" ≤ 1
unfolding node_publish_volume mount_target staged_path is_ephemeral not_mounted mount_options
    disk_test disk_mount disk_mkdir_all is_there os_is_not_exist ◌==◌
one_mount = omega arith

no_mount_below : published.host.mounted (ephemeral_path ns "vol") ≡ 0
unfolding node_publish_volume mount_target staged_path is_ephemeral not_mounted mount_options
    disk_test disk_mount disk_mkdir_all is_there os_is_not_exist ephemeral_path join clean elements
    walk keep up stack_text render is_abs join_with split ◌==◌
no_mount_below = refl

-- The machine after the volume is unpublished again.
abbrev unpublished : World machine
unpublished = (node_unpublish_volume ns unpublish_request published).1

node_unpublish_volume_clears_example :
    (unpublished.host.mounted "/target" ≡ 0)
    × (is_there unpublished.host "/target" ≡ false)
    × ((is_there unpublished.host (ephemeral_path ns "vol") ≡ false)
        ⊎ ((e : Error) × (disk_stat
                (ephemeral_path ns "vol")
                (remove_path "/target" (unmount_target "/target" published).1).1.host
              ≡ err e)
            × (is_not_exist e ≡ false)))
node_unpublish_volume_clears_example =
    node_unpublish_volume_clears removal_laws mount_laws ns unpublish_request published one_mount
      no_mount_below test_unpublish

-- The machine after a staging.
abbrev staged : World machine
staged = (node_stage_volume ns stage_request empty).1

staged_publish_succeeds : is_ok (node_publish_volume ns publish_request staged).0 ≡ true
unfolding node_publish_volume mount_target staged_path is_ephemeral not_mounted mount_options
    disk_test disk_mount disk_mkdir_all is_there os_is_not_exist ◌==◌ node_stage_volume stage_volume
    load_credentials store_all credential parse_auth emit decode_auth split
staged_publish_succeeds = refl

staged_unpublish_succeeds :
    is_ok
      (node_unpublish_volume ns unpublish_request
        (node_publish_volume ns publish_request staged).1).0
    ≡ true
unfolding node_unpublish_volume unmount_target remove_path clean_up node_publish_volume mount_target
    staged_path is_ephemeral not_mounted mount_options disk_test disk_mount disk_mkdir_all
    disk_unmount disk_remove_all disk_stat is_there os_is_not_exist is_not_exist ephemeral_path join
    clean elements walk keep up stack_text render is_abs join_with split ◌==◌ node_stage_volume
    stage_volume load_credentials store_all credential parse_auth emit decode_auth
staged_unpublish_succeeds = refl

serve_round_trip_example :
    ((node_publish_volume ns publish_request staged).1.host.mounted "/target" ≡ 1)
    × ((q : String)
        → (serve ns
              (stage stage_request
                ∷ publish publish_request
                ∷ unpublish unpublish_request
                ∷ unstage unstage_request
                ∷ [])
              empty).host.mounted
            q
          ≡ 0)
serve_round_trip_example =
    serve_round_trip mount_laws ns stage_request publish_request unpublish_request unstage_request
      empty refl refl staged_publish_succeeds staged_unpublish_succeeds
