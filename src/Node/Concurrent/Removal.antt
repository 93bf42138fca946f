-- ===== src/Node/Concurrent/Removal.antt =====
-- A publication and an unpublication at one target in flight at once, of which the one mounts between
-- the other's test and its removal.
use data_csi.Base.{◌≡◌, ◌≢◌, refl, ◌∙◌, ap, true, ok, arith, eq_refl, eq-false_of_ne, [], ◌∷◌}
use data_csi.Base.Act.{done, step, atomic, ◌>>=◌}
use data_csi.Csi.{NodePublishVolumeRequest, NodeUnpublishVolumeRequest}
use data_csi.Host.{Host}
use data_csi.Host.Laws.{View, MountLaws}
use data_csi.Node.Server.{NodeServer, World}
use data_csi.Node.Publish.{mount_options, ephemeral_path}
use data_csi.Node.Unpublish.{remove_path}
use data_csi.Node.Lifecycle.{publish, unpublish}
use data_csi.Node.Concurrent.{
  Handler, act, unmount_tested, unmount_act, clean_up_act, node_unpublish_act,
}
use data_csi.Node.Concurrent.Quiet.{host-remove_path}
use data_csi.Node.Concurrent.System.{Thread, System, Step, arrive, advance, Reach, start, later}
use data_csi.Node.Concurrent.Race.{
  AnyTime, IsReady, mounted, MountSucceeds, returned, ready_act, tested_act,
}

module _ {H : Host} (ns : NodeServer H) (un : NodeUnpublishVolumeRequest) where
  -- What is left after the test, and after the removal.
  abbrev removing : World H → Handler H (Unit {0})
  removing w = unmount_tested un.target_path (H.is_not_mount_point un.target_path w.host) >>= λ _.
      atomic (remove_path un.target_path) >>= λ _. clean_up_act (ephemeral_path ns un.volume_id)

  abbrev removed : World H → Handler H (Unit {0})
  removed v =
      done (remove_path un.target_path v).0 >>= λ _. clean_up_act (ephemeral_path ns un.volume_id)

  unpublish_act :
      un.volume_id ≢ "" → un.target_path ≢ "" → act ns (unpublish un) ≡ step (λ w. w) removing
  unfolding act node_unpublish_act unmount_act ◌>>=◌
  unpublish_act id target =
      rw (eq-false_of_ne un.volume_id "" id, eq-false_of_ne un.target_path "" target) refl

  removing_act :
      (w : World H)
      → H.is_not_mount_point un.target_path w.host ≡ ok true
      → removing w ≡ step (λ v. (remove_path un.target_path v).1) removed
  unfolding unmount_tested ◌>>=◌
  removing_act w e = rw e refl

module _ {H : Host} {V : View H} (L : MountLaws V) (ns : NodeServer H) where
  -- An unpublication that found no mount at its target still removes all that is there. If another
  -- call publishes at the target in between, and its mount succeeds, a state is reached in which the
  -- volume is mounted there and the next step of the unpublication is to remove all that is at the
  -- target, with the mount in place.
  pub removal_race :
      (req : NodePublishVolumeRequest) (un : NodeUnpublishVolumeRequest) (w : World H)
      → IsReady req
      → un.volume_id ≢ ""
      → un.target_path ≡ req.target_path
      → H.is_not_mount_point req.target_path w.host ≡ ok true
      → MountSucceeds ns req w.host
      → (s : System H) × (t : System H) × Reach ns AnyTime w s
        × (V.depth s.world.host req.target_path ≡ 1)
        × Step ns AnyTime s t
        × (t.world.host ≡ (H.remove_all req.target_path s.world.host).1)
        × (V.depth t.world.host req.target_path ≡ 1)
  removal_race req un w r id same free first =
      let pub_thread = λ (a : Handler H (Unit {0})).
        let t : Thread H = record { call = publish req; rest = a } in t in
      let un_thread = λ (a : Handler H (Unit {0})).
        let t : Thread H = record { call = unpublish un; rest = a } in t in
      let target : un.target_path ≢ "" = λ e. r.target (cc (e, same)) in
      let un_free : H.is_not_mount_point un.target_path w.host ≡ ok true = rw same free in
      let after : World H = record w { host = mounted ns req w.host } in
      let one : V.depth after.host req.target_path ≡ 1 = ground (
        arith,
        L.test_ok req.target_path w.host true free,
        L.depth-mount req.staging_target_path req.target_path "" (mount_options req.readonly) w.host
            req.target_path,
        eq_refl req.target_path,
      ) in
      let removal = host-remove_path un.target_path after in
      (
        _,
        _,
        later
            (later
              (later (later (later start (arrive (publish req) tt)) (arrive (unpublish un) tt)) (
                advance [] (pub_thread (act ns (publish req)) ∷ []) (unpublish un) _ _ (
                  ap (λ a. un_thread a ∷ pub_thread (act ns (publish req)) ∷ [])
                    (unpublish_act ns un id target))))
              (advance (un_thread (removing ns un w) ∷ []) [] (publish req) _ _
                (ap (λ a. un_thread (removing ns un w) ∷ pub_thread a ∷ []) (ready_act ns req r))))
            (advance (un_thread (removing ns un w) ∷ []) [] (publish req) _ _ (
              ap (λ a. un_thread (removing ns un w) ∷ pub_thread a ∷ [])
                (tested_act ns req w free))),
        one,
        advance [] (pub_thread (returned ns req w) ∷ []) (unpublish un) _ _ (
            ap (λ a. un_thread a ∷ pub_thread (returned ns req w) ∷ [])
              (removing_act ns un w un_free)),
        removal ∙ ap (λ p. (H.remove_all p after.host).1) same,
        ap (λ h. V.depth h req.target_path) removal
            ∙ L.depth-remove_all un.target_path after.host req.target_path
            ∙ one,
      )
