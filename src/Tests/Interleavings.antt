-- ===== src/Tests/Interleavings.antt =====
-- Concurrent calls on the machine of the tests.
use data_csi.Base.{◌≤◌, ◌≡◌, refl, true, ok, is_ok, [], ◌∷◌, ap, ◌==◌, arith, if◌then◌else◌}
use mathlib.Core.Bool.{true≢false}
use data_csi.Base.Act.{◌>>=◌, map_error}
use data_csi.Node.Server.{World}
use data_csi.Node.Publish.{is_ephemeral, mount_options, ephemeral_path}
use data_csi.Node.Lifecycle.{publish, unpublish}
use data_csi.Node.Concurrent.{
  act, node_publish_act, staged_act, test_act, node_unpublish_act, unmount_act, unmount_tested,
}
use data_csi.Node.Concurrent.System.{System, Step, arrive, advance, Reach, start, later}
use data_csi.Go.Filepath.{join, clean, elements, walk, keep, up, stack_text, render, is_abs}
use data_csi.Go.Strings.{split, join_with}
use data_csi.Node.Concurrent.Apart.{Apart, interleaved_removals}
use data_csi.Node.Concurrent.Mounts.{OneAtATime, interleaved_single_mount}
use data_csi.Node.Concurrent.Race.{AnyTime, IsReady, publish_race}
use data_csi.Node.Concurrent.Removal.{removal_race}
use data_csi.Tests.Machine.{
  machine, mount_laws, loss_laws, reaches, is_there, disk_test, disk_mount, disk_unmount,
  disk_remove_all,
}
use data_csi.Tests.Requests.{ns, empty, publish_request, unpublish_request}

abbrev two_arrived : System machine
two_arrived = record {
  world = empty;
  threads =
      record { call = unpublish unpublish_request; rest = act ns (unpublish unpublish_request) }
      ∷ record { call = publish publish_request; rest = act ns (publish publish_request) }
      ∷ [];
}

both_in_flight : Reach ns OneAtATime empty two_arrived
both_in_flight =
    later (later start (arrive (publish publish_request) tt))
      (arrive (unpublish unpublish_request) tt)

-- The publication tests its target, while the other call has made no step.
one_tested : (s : System machine) × Reach ns OneAtATime empty s
unfolding act node_publish_act staged_act test_act is_ephemeral ◌>>=◌ map_error ◌==◌
one_tested = (
  _,
  later both_in_flight (
      advance
        (record { call = unpublish unpublish_request; rest = act ns (unpublish unpublish_request) }
          ∷ [])
        [] (publish publish_request) _ _ refl),
)

interleaved_single_mount_example : one_tested.0.world.host.mounted "/target" ≤ 1
interleaved_single_mount_example =
    interleaved_single_mount mount_laws ns "/target" (omega arith) one_tested.1

-- A machine with the directory of the target, and nothing mounted.
abbrev ready_world : World machine
ready_world = record {
  host = record { mounted = λ p. 0; there = λ p. p == "/target"; lost = λ p. 0 };
  events = [];
  bottle_counter = 0;
}

request-IsReady : IsReady publish_request
unfolding is_ephemeral ◌==◌
request-IsReady = record {
  capability = refl;
  id = λ e. true≢false (ap (λ t. t == "vol") e);
  target = λ e. true≢false (ap (λ t. t == "/target") e);
  staging = λ e. true≢false (ap (λ t. t == "/staging") e);
  persistent = refl;
}

target_is_free : disk_test "/target" ready_world.host ≡ ok true
unfolding disk_test is_there ◌==◌
target_is_free = refl

first_mounts :
    is_ok (disk_mount "/staging" "/target" "" (mount_options true) ready_world.host).0 ≡ true
unfolding disk_mount is_there ◌==◌
first_mounts = refl

second_mounts :
    is_ok
      (disk_mount "/staging" "/target" ""
        (mount_options true)
        (disk_mount "/staging" "/target" "" (mount_options true) ready_world.host).1).0
    ≡ true
unfolding disk_mount is_there ◌==◌
second_mounts = refl

publish_race_example :
    (s : System machine) × Reach ns AnyTime ready_world s × (s.world.host.mounted "/target" ≡ 2)
publish_race_example =
    publish_race ns mount_laws publish_request publish_request ready_world request-IsReady
      request-IsReady refl target_is_free first_mounts second_mounts

removal_race_example :
    (s : System machine) × (t : System machine) × Reach ns AnyTime ready_world s
    × (s.world.host.mounted "/target" ≡ 1)
    × Step ns AnyTime s t
    × (t.world.host ≡ (disk_remove_all "/target" s.world.host).1)
    × (t.world.host.mounted "/target" ≡ 1)
unfolding ◌==◌
removal_race_example =
    removal_race mount_laws ns publish_request unpublish_request ready_world request-IsReady
      (λ e. true≢false (ap (λ t. t == "vol") e)) refl target_is_free first_mounts

-- A machine with a volume at the target.
abbrev mounted_world : World machine
mounted_world = record {
  host = record {
    mounted = λ p. if p == "/target" then 1 else 0;
    there = λ p. p == "/target";
    lost = λ p. 0;
  };
  events = [];
  bottle_counter = 0;
}

-- The volume is unpublished up to its removal.
removal_made : (s : System machine) × Reach ns (Apart ns reaches "/target") mounted_world s
unfolding act node_unpublish_act unmount_act unmount_tested map_error ◌>>=◌ disk_test disk_unmount
    is_there ephemeral_path join clean elements walk keep up stack_text render is_abs join_with
    split ◌==◌
removal_made = (
  _,
  later
      (later
        (later
          (later start (
            arrive (unpublish unpublish_request)
              ((λ e. absurd (true≢false e)), tt, (λ e. tt), (λ e. tt))))
          (advance [] [] (unpublish unpublish_request) _ _ refl))
        (advance [] [] (unpublish unpublish_request) _ _ refl))
      (advance [] [] (unpublish unpublish_request) _ _ refl),
)

interleaved_removals_example : removal_made.0.world.host.lost "/target" ≤ 0
unfolding ◌==◌
interleaved_removals_example =
    interleaved_removals mount_laws (loss_laws "/target") ns (omega arith) removal_made.1
