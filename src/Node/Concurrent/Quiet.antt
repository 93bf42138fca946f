-- ===== src/Node/Concurrent/Quiet.antt =====
-- The handlers by what they do to a number that staging and the making of directories do not raise:
-- where their other calls of the machine do not raise it either, no step of theirs does.
use data_csi.Base.{String, ℕ, ◌≤◌, ◌≡◌, refl, Bool, ok, err, arith, Result, not}
use data_csi.Base.Act.{Act, atomic}
use data_csi.Base.Measure.{
  Keeps, Keeps-guard, Keeps-atomic, Keeps-try, Keeps-if, Keeps-bind, Keeps-map_error,
}
use data_csi.Base.Dict.{Dict}
use data_csi.Csi.{
  NodeStageVolumeRequest, NodePublishVolumeRequest, NodeUnpublishVolumeRequest,
  NodeUnstageVolumeRequest,
}
use data_csi.Errors.{Error, os_is_not_exist, is_not_exist}
use data_csi.Event.{EventType}
use data_csi.Host.{Host, FileMode}
use data_csi.Host.Laws.{Untouched}
use data_csi.Node.Server.{NodeServer, World, as_internal, on_host, emit}
use data_csi.Node.Stage.{event_step, pull_step, notify_step, count_bottle, config, pull_options}
use data_csi.Node.Publish.{is_ephemeral, mount_options, ephemeral_path}
use data_csi.Node.Unpublish.{remove_path, unless_missing}
use data_csi.Node.Unstage.{remove_staging}
use data_csi.Node.Concurrent.{
  after_test, unmount_tested, clean_up_found, stage_act, node_stage_act, test_act, mount_act,
  staged_act, node_publish_act, unmount_act, clean_up_act, node_unpublish_act, node_unstage_act,
}

module _ {H : Host} where
  host-unless_missing :
      (r : Result Error (Unit {0}) × World H) → (unless_missing r).1.host ≡ r.1.host
  host-unless_missing (ok _, w) = refl
  host-unless_missing (err e, w) = ground arith

  pub host-remove_path :
      (path : String) (w : World H) → (remove_path path w).1.host ≡ (H.remove_all path w.host).1
  unfolding remove_path
  host-remove_path path w = host-unless_missing (on_host (H.remove_all path) w)

module _ {H : Host} {number : H.State → ℕ} (U : Untouched H number) where
  abbrev Quiet : {E A : Type 0} → Act (World H) E A → Type 0
  Quiet m = Keeps (λ w. number w.host) m

  -- That a removal, a mount and an unmount do not raise the number.
  abbrev QuietRemoval : String → Type 0
  QuietRemoval path = (s : H.State) → number (H.remove_all path s).1 ≤ number s

  abbrev QuietUnmount : String → Type 0
  QuietUnmount path = (s : H.State) → number (H.unmount path s).1 ≤ number s

  abbrev QuietMount : NodePublishVolumeRequest → Type 0
  QuietMount req =
      (path : String) (s : H.State)
      → number (H.mount path req.target_path "" (mount_options req.readonly) s).1 ≤ number s

  Quiet-after_test : (path : String) (r : Result Error Bool) → Quiet (after_test {H = H} path r)
  unfolding after_test
  Quiet-after_test path (ok b) = Keeps.returned _
  Quiet-after_test path (err x) =
      Keeps-if (os_is_not_exist x)
        (Keeps-bind (Keeps-atomic _ (λ w. U.mkdir_all path 0o750 w.host)) (λ _. Keeps.returned _))
        (Keeps.returned _)

  Quiet-test_act : (path : String) → Quiet (test_act {H = H} path)
  unfolding test_act
  Quiet-test_act path = Keeps-bind (Keeps-try _ (λ w. omega arith)) (Quiet-after_test path)

  Quiet-remove_path :
      (path : String) → QuietRemoval path → Quiet (atomic (remove_path {H = H} path))
  Quiet-remove_path path h = Keeps-atomic _ (λ w. rw (host-remove_path path w) (h w.host))

  Quiet-unmount_tested :
      (path : String) (r : Result Error Bool)
      → QuietUnmount path
      → Quiet (unmount_tested {H = H} path r)
  unfolding unmount_tested
  Quiet-unmount_tested path (err x) h =
      Keeps-if (is_not_exist x) (Keeps.returned _) (Keeps.returned _)
  Quiet-unmount_tested path (ok b) h =
      Keeps-if (not b) (Keeps-map_error (as_internal H) (Keeps-atomic _ (λ w. h w.host)))
        (Keeps.returned _)

  Quiet-unmount_act : (path : String) → QuietUnmount path → Quiet (unmount_act {H = H} path)
  unfolding unmount_act
  Quiet-unmount_act path h =
      Keeps-bind (Keeps-try _ (λ w. omega arith)) (λ r. Quiet-unmount_tested path r h)

  Quiet-clean_up_found :
      (path : String) (r : Result Error FileMode)
      → QuietRemoval path
      → Quiet (clean_up_found {H = H} path r)
  unfolding clean_up_found
  Quiet-clean_up_found path (ok m) h = Quiet-remove_path path h
  Quiet-clean_up_found path (err x) h = Keeps.returned _

  pub Quiet-clean_up_act : (path : String) → QuietRemoval path → Quiet (clean_up_act {H = H} path)
  unfolding clean_up_act
  Quiet-clean_up_act path h =
      Keeps-bind (Keeps-try _ (λ w. omega arith)) (λ r. Quiet-clean_up_found path r h)

  Quiet-mount_act :
      (path : String) (req : NodePublishVolumeRequest) (b : Bool)
      → QuietMount req
      → Quiet (mount_act {H = H} path req b)
  unfolding mount_act
  Quiet-mount_act path req b h =
      Keeps-if (not b) (Keeps.returned _)
        (Keeps-map_error (as_internal H) (Keeps-atomic _ (λ w. h path w.host)))

  module _ (ns : NodeServer H) where
    Quiet-count_bottle : Quiet (atomic (count_bottle ns))
    unfolding count_bottle
    Quiet-count_bottle = Keeps-atomic _ (λ w. omega arith)

    Quiet-event_step :
        (context : Dict String) (event_type : EventType) (reason text : String)
        → Quiet (atomic (event_step ns context event_type reason text))
    unfolding event_step emit
    Quiet-event_step context event_type reason text = Keeps-atomic _ (λ w. ground arith)

    Quiet-pull_step :
        (path : String) (context : Dict String) (src : H.Source) (desc : H.Descriptor)
        → Quiet (atomic (pull_step ns path context src desc))
    unfolding pull_step emit
    Quiet-pull_step path context src desc =
        Keeps-atomic _ (λ w. ground (arith, U.pull src desc path (pull_options ns context) w.host))

    Quiet-notify_step :
        (path : String) (src : H.Source) (desc : H.Descriptor) (event : H.TelemetryEvent)
        → Quiet (atomic (notify_step ns path src desc event))
    unfolding notify_step
    Quiet-notify_step path src desc event =
        Keeps-atomic _ (λ w.
          ground (arith, U.notify ns.telem_hosts ns.telem_user_name src desc path event w.host))

    Quiet-stage_act :
        (path : String) (context secrets : Dict String) → Quiet (stage_act ns path context secrets)
    unfolding stage_act
    Quiet-stage_act path context secrets = Keeps-bind (Keeps.returned _) (λ store.
        Keeps-bind (Quiet-event_step _ _ _ _) (λ _.
          Keeps-bind (Keeps-atomic _ (λ w. omega arith)) (λ start_time.
            Keeps-bind
              (Keeps-map_error _
                (Keeps-atomic _ (λ w. U.resolve (config ns store) _ ns.cache_dir w.host)))
              (λ found. Keeps-bind (Quiet-pull_step _ _ _ _) (λ _.
                Keeps-bind (Keeps-atomic _ (λ w. omega arith)) (λ elapsed.
                  Keeps-bind (Quiet-event_step _ _ _ _)
                    (λ _. Keeps-bind (Quiet-notify_step _ _ _ _) (λ _. Quiet-count_bottle))))))))

    pub Quiet-staged_act : (req : NodePublishVolumeRequest) → Quiet (staged_act ns req)
    unfolding staged_act
    Quiet-staged_act req =
        Keeps-if (is_ephemeral req.volume_context)
          (Keeps-bind (Keeps-map_error _ (Quiet-stage_act _ _ _)) (λ _. Keeps.returned _))
          (Keeps.returned _)

    pub Quiet-stage : (req : NodeStageVolumeRequest) → Quiet (node_stage_act ns req)
    unfolding node_stage_act
    Quiet-stage req = Keeps-bind (Keeps-guard _ _) (λ _.
        Keeps-bind (Keeps-guard _ _)
          (λ _. Keeps-bind (Keeps-guard _ _) (λ _. Keeps-map_error _ (Quiet-stage_act _ _ _))))

    pub Quiet-publish :
        (req : NodePublishVolumeRequest) → QuietMount req → Quiet (node_publish_act ns req)
    unfolding node_publish_act
    Quiet-publish req h = Keeps-bind (Keeps-guard _ _) (λ _. Keeps-bind (Keeps-guard _ _) (λ _.
        Keeps-bind (Keeps-guard _ _) (λ _. Keeps-bind (Quiet-staged_act req) (λ path.
          Keeps-bind (Keeps-guard _ _) (λ _.
            Keeps-bind (Keeps-map_error _ (Quiet-test_act _))
              (λ b. Quiet-mount_act path req b h))))))

    pub Quiet-unpublish :
        (req : NodeUnpublishVolumeRequest)
        → QuietUnmount req.target_path
        → QuietRemoval req.target_path
        → QuietRemoval (ephemeral_path ns req.volume_id)
        → Quiet (node_unpublish_act ns req)
    unfolding node_unpublish_act
    Quiet-unpublish req unmounting removal cleaning = Keeps-bind (Keeps-guard _ _) (λ _.
        Keeps-bind (Keeps-guard _ _) (λ _.
          Keeps-bind (Quiet-unmount_act _ unmounting)
            (λ _. Keeps-bind (Quiet-remove_path _ removal) (λ _. Quiet-clean_up_act _ cleaning))))

  pub Quiet-unstage :
      (req : NodeUnstageVolumeRequest)
      → QuietRemoval req.staging_target_path
      → Quiet (node_unstage_act {H = H} req)
  unfolding node_unstage_act remove_staging
  Quiet-unstage req removal = Keeps-bind (Keeps-guard _ _) (λ _.
      Keeps-bind (Keeps-guard _ _) (λ _. Keeps-atomic _ (λ w. ground (arith, removal w.host))))
