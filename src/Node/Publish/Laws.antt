-- ===== src/Node/Publish/Laws.antt =====
-- What publishing does to the mounts of the machine, and to the counter and the events.
use Prim.Native.Nat.{max}
use data_csi.Base.{
  eq-false_of_ne, Bool, is_some, false, ◌<◌, ◌≤◌, String, ◌≡◌, true, false, Bool-cases, is_ok, ok,
  arith, ◌==◌, eq_iff, eq_refl, inl, inr, if◌then◌else◌, Result-cases,
}
use data_csi.Csi.{NodePublishVolumeRequest}
use data_csi.Errors.{os_is_not_exist, is_not_exist_of_os}
use data_csi.Host.{Host}
use data_csi.Host.Laws.{View, MountLaws}
use data_csi.Node.Server.{NodeServer, World}
use data_csi.Node.Arguments.{node_publish_volume-Checks}
use data_csi.Node.Stage.Laws.{depth-stage_volume}
use data_csi.Node.Publish.{
  is_ephemeral, ephemeral_path, staged_path, mount_target, mount_options, node_publish_volume,
}

module _ {H : Host} {V : View H} (L : MountLaws V) (ns : NodeServer H)
    (req : NodePublishVolumeRequest) where
  depth-staged_path :
      (w : World H) (q : String) → V.depth (staged_path ns req w).1.host q ≡ V.depth w.host q
  unfolding staged_path
  depth-staged_path w q =
      let staged =
        depth-stage_volume ns L (ephemeral_path ns req.volume_id) req.volume_context req.secrets w
          q in
      ground (arith, staged)

  -- Where the target has a mount this changes no depth; else a success leaves one there, and a failure
  -- one at most.
  depth-mount_target :
      (path : String) (w : World H) (q : String)
      → let (r, w') = mount_target ns path req w in
        (is_ok r ≡ true
          → V.depth w'.host q
            ≡ (if req.target_path == q then max (V.depth w.host q) 1 else V.depth w.host q))
        × (V.depth w.host q ≤ V.depth w'.host q)
        × (V.depth w'.host q
            ≤ (if req.target_path == q then max (V.depth w.host q) 1 else V.depth w.host q))
  unfolding mount_target
  depth-mount_target path w q =
      let options = mount_options req.readonly in
      elim (Result-cases (H.is_not_mount_point req.target_path w.host)) [
        | inl (b, p) ↦ ground (
          arith,
          L.test_ok req.target_path w.host b p,
          L.depth-mount path req.target_path "" options w.host q,
          eq_iff req.target_path q,
        )
        | inr (e, p) ↦ elim (Bool-cases (os_is_not_exist e)) [
          | inl m ↦
              let made = (H.mkdir_all req.target_path 0o750 w.host).1 in
              ground (
                arith,
                L.test_missing req.target_path w.host e p (is_not_exist_of_os e m),
                L.depth-mkdir_all req.target_path 0o750 w.host q,
                L.depth-mount path req.target_path "" options made q,
                eq_iff req.target_path q,
              )
          | inr m ↦ ground (arith, L.depth-mkdir_all req.target_path 0o750 w.host q)
        ]
      ]

  -- Publishing that succeeds leaves at the target the mounts that were there, and one if there was
  -- none. Where it fails it takes no mount away, and it leaves one that was not there only at a target
  -- that had none. At every other path the mounts are as they were.
  pub depth-node_publish_volume :
      (w : World H) (q : String)
      → let (r, w') = node_publish_volume ns req w in
        (is_ok r ≡ true
          → V.depth w'.host q
            ≡ (if req.target_path == q then max (V.depth w.host q) 1 else V.depth w.host q))
        × (V.depth w.host q ≤ V.depth w'.host q)
        × (V.depth w'.host q
            ≤ (if req.target_path == q then max (V.depth w.host q) 1 else V.depth w.host q))
  unfolding node_publish_volume
  depth-node_publish_volume w q = elim (Result-cases (staged_path ns req w).0) [
    | inl (path, p) ↦
        ground (arith, depth-staged_path w q, depth-mount_target path (staged_path ns req w).1 q)
    | inr (e, p) ↦ ground (arith, depth-staged_path w q)
  ]

  given_of_ok :
      (w : World H)
      → is_ephemeral req.volume_context ≡ false
      → is_ok (node_publish_volume ns req w).0 ≡ true
      → (is_some req.volume_capability ≡ true)
        × (req.volume_id == "" ≡ false)
        × (req.target_path == "" ≡ false)
        × (req.staging_target_path == "" ≡ false)
  given_of_ok w e h = elim (node_publish_volume-Checks ns req w) [
    | inr (n, (text, x)) ↦ absurd (ground arith)
    | inl ((c, (i, (p, g))), f) ↦ (
      c,
      eq-false_of_ne _ _ i,
      eq-false_of_ne _ _ p,
      elim g [ inl x ↦ cc | inr x ↦ eq-false_of_ne _ _ x ],
    )
  ]

  publish_mounted :
      (w : World H)
      → is_ephemeral req.volume_context ≡ false
      → is_some req.volume_capability ≡ true
      → req.volume_id == "" ≡ false
      → req.target_path == "" ≡ false
      → req.staging_target_path == "" ≡ false
      → H.is_not_mount_point req.target_path w.host ≡ ok false
      → node_publish_volume ns req w ≡ (ok tt, w)
  unfolding node_publish_volume staged_path mount_target
  publish_mounted w e c i p g t = ground arith

  -- Publishing a volume that is not ephemeral is idempotent: after a success, where the test of the
  -- target tells its state once something is mounted there, the same request succeeds again and
  -- changes nothing.
  pub node_publish_volume_again :
      (w : World H)
      → ((p : String) (s : H.State)
          → 0 < V.depth s p
          → (b : Bool) × (H.is_not_mount_point p s ≡ ok b))
      → is_ephemeral req.volume_context ≡ false
      → is_ok (node_publish_volume ns req w).0 ≡ true
      → let w' = (node_publish_volume ns req w).1 in node_publish_volume ns req w' ≡ (ok tt, w')
  node_publish_volume_again w tells e h =
      let w' = (node_publish_volume ns req w).1 in
      let mounted : 0 < V.depth w'.host req.target_path =
        ground (arith, depth-node_publish_volume w req.target_path, eq_refl req.target_path) in
      let (b, t) = tells req.target_path w'.host mounted in
      let (c, i, p, g) = given_of_ok w e h in
      publish_mounted w' e c i p g (ground (arith, t, L.test_ok req.target_path w'.host b t))
