-- ===== src/Node/Concurrent/Race.antt =====
-- Two publications at one target in flight at once, which both test it before one has mounted.
use data_csi.Base.{
  ◌≡◌, ◌≢◌, refl, ap, true, false, ok, is_ok, is_some, arith, eq_iff, eq_refl, eq-false_of_ne, List,
  [], ◌∷◌,
}
use data_csi.Base.Act.{done, step, ◌>>=◌, map_error}
use data_csi.Csi.{NodePublishVolumeRequest}
use data_csi.Host.{Host}
use data_csi.Host.Laws.{View, MountLaws}
use data_csi.Node.Server.{NodeServer, World, as_internal}
use data_csi.Node.Publish.{is_ephemeral, mount_options}
use data_csi.Node.Lifecycle.{Call, publish}
use data_csi.Node.Concurrent.{
  Handler, act, after_test, test_act, mount_act, staged_act, node_publish_act,
}
use data_csi.Node.Concurrent.System.{Thread, System, arrive, advance, Reach, start, later}

-- The clients make any call at any time.
abbrev pub AnyTime : {H : Host} → Call → List (Thread H) → Type 0
AnyTime c threads = Unit

-- A complete request for a volume that is staged already.
pub record IsReady (req : NodePublishVolumeRequest) : Type 0 where
  pub capability : is_some req.volume_capability ≡ true
  pub id : req.volume_id ≢ ""
  pub target : req.target_path ≢ ""
  pub staging : req.staging_target_path ≢ ""
  pub persistent : is_ephemeral req.volume_context ≡ false

module _ {H : Host} (ns : NodeServer H) where
  -- The host after the mount of a request.
  abbrev pub mounted : NodePublishVolumeRequest → H.State → H.State
  mounted req h =
      (H.mount req.staging_target_path req.target_path "" (mount_options req.readonly) h).1

  abbrev pub MountSucceeds : NodePublishVolumeRequest → H.State → Type 0
  MountSucceeds req h =
      is_ok (H.mount req.staging_target_path req.target_path "" (mount_options req.readonly) h).0
      ≡ true

  abbrev pub tested : NodePublishVolumeRequest → World H → Handler H (Unit {0})
  tested req w =
      map_error (as_internal H)
        (after_test req.target_path (H.is_not_mount_point req.target_path w.host))
      >>= mount_act req.staging_target_path req

  -- What is left once the mount is made.
  abbrev pub returned : NodePublishVolumeRequest → World H → Handler H (Unit {0})
  returned req v = map_error (as_internal H) (
      done
        (H.mount req.staging_target_path req.target_path "" (mount_options req.readonly) v.host).0)

  pub ready_act :
      (req : NodePublishVolumeRequest)
      → IsReady req
      → act ns (publish req) ≡ step (λ w. w) (tested req)
  unfolding act node_publish_act staged_act test_act ◌>>=◌ map_error
  ready_act req r =
      rw
        (
          r.capability,
          eq-false_of_ne req.volume_id "" r.id,
          eq-false_of_ne req.target_path "" r.target,
          r.persistent,
          eq-false_of_ne req.staging_target_path "" r.staging,
        )
        refl

  pub tested_act :
      (req : NodePublishVolumeRequest) (w : World H)
      → H.is_not_mount_point req.target_path w.host ≡ ok true
      → tested req w ≡ step (λ v. record v { host = mounted req v.host }) (returned req)
  unfolding after_test mount_act ◌>>=◌ map_error
  tested_act req w e = rw e refl

  module _ {V : View H} (L : MountLaws V) where
    -- Two publications at one target, of volumes that are staged, can both find no mount there: if
    -- the mounts succeed, a state is reached in which the target has two.
    pub publish_race :
        (req other : NodePublishVolumeRequest) (w : World H)
        → IsReady req
        → IsReady other
        → other.target_path ≡ req.target_path
        → H.is_not_mount_point req.target_path w.host ≡ ok true
        → MountSucceeds req w.host
        → MountSucceeds other (mounted req w.host)
        → (s : System H) × Reach ns AnyTime w s × (V.depth s.world.host req.target_path ≡ 2)
    publish_race req other w r o same free first second =
        let thread = λ (c : NodePublishVolumeRequest) (a : Handler H (Unit {0})).
          let t : Thread H = record { call = publish c; rest = a } in t in
        let second_free = rw (← same) at free in
        (
          _,
          later
              (later
                (later
                  (later (later (later start (arrive (publish req) tt)) (arrive (publish other) tt))
                    (advance (thread other (act ns (publish other)) ∷ []) [] (publish req) _ _ (
                      ap (λ a. thread other (act ns (publish other)) ∷ thread req a ∷ [])
                        (ready_act req r))))
                  (advance [] (thread req (tested req w) ∷ []) (publish other) _ _ (
                    ap (λ a. thread other a ∷ thread req (tested req w) ∷ []) (ready_act other o))))
                (advance (thread other (tested other w) ∷ []) [] (publish req) _ _ (
                  ap (λ a. thread other (tested other w) ∷ thread req a ∷ [])
                    (tested_act req w free))))
              (advance [] (thread req (returned req w) ∷ []) (publish other) _ _ (
                ap (λ a. thread other a ∷ thread req (returned req w) ∷ [])
                  (tested_act other w second_free))),
          ground (
            arith,
            L.test_ok req.target_path w.host true free,
            L.depth-mount req.staging_target_path req.target_path "" (mount_options req.readonly)
                w.host req.target_path,
            L.depth-mount other.staging_target_path other.target_path ""
                (mount_options other.readonly) (mounted req w.host) req.target_path,
            eq_refl req.target_path,
            eq_iff other.target_path req.target_path,
          ),
        )
