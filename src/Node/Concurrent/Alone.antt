-- ===== src/Node/Concurrent/Alone.antt =====
-- A call that no other call runs between does what the handler, read from start to end, does.
use data_csi.Base.{
  String, ◌≡◌, Bool, true, false, arith, Bool-cases, inl, inr, if◌then◌else◌, not, pure,
  map_error as map_error',
}
use data_csi.Base.Act.{
  run_alone, ◌>>=◌, map_error, Refines, Refines-done, Refines-atomic, Refines-guard, Refines-bind,
  Refines-map_error,
}
use data_csi.Base.Dict.{Dict}
use data_csi.Csi.{
  NodeStageVolumeRequest, NodePublishVolumeRequest, NodeUnpublishVolumeRequest,
  NodeUnstageVolumeRequest,
}
use data_csi.Host.{Host}
use data_csi.Node.Server.{NodeServer, World, as_internal, on_host}
use data_csi.Node.Stage.{stage_volume, node_stage_volume}
use data_csi.Node.Publish.{
  mount_options, is_ephemeral, staged_path, mount_target, not_mounted, node_publish_volume,
}
use data_csi.Node.Unpublish.{unmount_target, clean_up, node_unpublish_volume}
use data_csi.Node.Unstage.{node_unstage_volume}
use data_csi.Node.Lifecycle.{Call, stage, publish, unpublish, unstage, answer}
use data_csi.Node.Concurrent.{
  after_test, unmount_tested, clean_up_found, act, stage_act, node_stage_act, test_act, mount_act,
  staged_act, node_publish_act, unmount_act, clean_up_act, node_unpublish_act, node_unstage_act,
}

module _ {H : Host} where
  Refines-test_act : (path : String) → Refines (test_act {H = H} path) (not_mounted path)
  unfolding run_alone test_act after_test not_mounted ◌>>=◌
  Refines-test_act path = record { apply = λ w. ground arith }

  Refines-unmount_act : (path : String) → Refines (unmount_act {H = H} path) (unmount_target path)
  unfolding run_alone unmount_act unmount_tested unmount_target ◌>>=◌ map_error
  Refines-unmount_act path = record { apply = λ w. ground arith }

  Refines-clean_up_act : (path : String) → Refines (clean_up_act {H = H} path) (clean_up path)
  unfolding run_alone clean_up_act clean_up_found clean_up ◌>>=◌
  Refines-clean_up_act path = record { apply = λ w. ground arith }

  Refines-node_unstage_act :
      (req : NodeUnstageVolumeRequest)
      → Refines (node_unstage_act {H = H} req) (node_unstage_volume req)
  unfolding node_unstage_act node_unstage_volume
  Refines-node_unstage_act req =
      Refines-bind (Refines-guard _ _)
        (λ _. Refines-bind (Refines-guard _ _) (λ _. Refines-atomic _))

module _ {H : Host} (ns : NodeServer H) where
  Refines-stage_act :
      (path : String) (context secrets : Dict String)
      → Refines (stage_act ns path context secrets) (stage_volume ns path context secrets)
  unfolding run_alone stage_act stage_volume ◌>>=◌ map_error
  Refines-stage_act path context secrets = record { apply = λ w. ground arith }

  Refines-staged_act :
      (req : NodePublishVolumeRequest) → Refines (staged_act ns req) (staged_path ns req)
  unfolding staged_act staged_path
  Refines-staged_act req = elim (Bool-cases (is_ephemeral req.volume_context)) [
    | inl e ↦ rw e (
        Refines-bind (Refines-map_error (as_internal H) (Refines-stage_act _ _ _))
          (λ _. Refines-done _))
    | inr e ↦ rw e (Refines-done _)
  ]

  Refines-node_stage_act :
      (req : NodeStageVolumeRequest) → Refines (node_stage_act ns req) (node_stage_volume ns req)
  unfolding node_stage_act node_stage_volume
  Refines-node_stage_act req = Refines-bind (Refines-guard _ _) (λ _.
      Refines-bind (Refines-guard _ _) (λ _.
        Refines-bind (Refines-guard _ _)
          (λ _. Refines-map_error (as_internal H) (Refines-stage_act _ _ _))))

  Refines-node_unpublish_act :
      (req : NodeUnpublishVolumeRequest)
      → Refines (node_unpublish_act ns req) (node_unpublish_volume ns req)
  unfolding node_unpublish_act node_unpublish_volume
  Refines-node_unpublish_act req = Refines-bind (Refines-guard _ _) (λ _.
      Refines-bind (Refines-guard _ _) (λ _.
        Refines-bind (Refines-unmount_act _)
          (λ _. Refines-bind (Refines-atomic _) (λ _. Refines-clean_up_act _))))

  Refines-mount_act :
      (path : String) (req : NodePublishVolumeRequest) (not_mnt : Bool)
      → Refines (mount_act path req not_mnt) (
          if not not_mnt
          then pure tt
          else map_error'
              (as_internal H)
              (on_host {H = H} (H.mount path req.target_path "" (mount_options req.readonly))))
  unfolding mount_act
  Refines-mount_act path req true = Refines-map_error (as_internal H) (Refines-atomic _)
  Refines-mount_act path req false = Refines-done _

  Refines-mount :
      (path : String) (req : NodePublishVolumeRequest)
      → Refines
          (map_error (as_internal H) (test_act req.target_path) >>= mount_act path req)
          (mount_target ns path req)
  unfolding mount_act mount_target
  Refines-mount path req =
      Refines-bind (Refines-map_error (as_internal H) (Refines-test_act _))
        (Refines-mount_act path req)

  Refines-node_publish_act :
      (req : NodePublishVolumeRequest)
      → Refines (node_publish_act ns req) (node_publish_volume ns req)
  unfolding node_publish_act node_publish_volume
  Refines-node_publish_act req = Refines-bind (Refines-guard _ _) (λ _.
      Refines-bind (Refines-guard _ _) (λ _. Refines-bind (Refines-guard _ _) (λ _.
        Refines-bind (Refines-staged_act req)
          (λ path. Refines-bind (Refines-guard _ _) (λ _. Refines-mount path req)))))

  -- A call that no other call runs between leaves what the handler, read from start to end, leaves,
  -- with the same result.
  pub run_alone-act : (c : Call) (w : World H) → run_alone (act ns c) w ≡ answer ns c w
  unfolding act answer
  run_alone-act (stage req) = (Refines-node_stage_act req).apply
  run_alone-act (publish req) = (Refines-node_publish_act req).apply
  run_alone-act (unpublish req) = (Refines-node_unpublish_act req).apply
  run_alone-act (unstage req) = (Refines-node_unstage_act req).apply
