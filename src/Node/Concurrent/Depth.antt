-- ===== src/Node/Concurrent/Depth.antt =====
-- What the steps of one handler do to the number of mounts at a path, whatever runs between them.
use data_csi.Base.{
  String, ℕ, ◌≤◌, ◌≡◌, refl, Bool, true, false, ok, err, arith, ◌==◌, eq_iff, Result, Bool-cases,
  inl, inr,
}
use data_csi.Base.Act.{pure, done, ◌>>=◌, map_error}
use data_csi.Base.Measure.{Keeps, Bounded, Keeps-guard, Bounded-bind, Bounded-map_error}
use data_csi.Csi.{NodePublishVolumeRequest}
use data_csi.Errors.{Error, os_is_not_exist, is_not_exist_of_os}
use data_csi.Host.{Host}
use data_csi.Host.Laws.{View, MountLaws, Untouched}
use data_csi.Node.Server.{NodeServer, World, as_internal}
use data_csi.Node.Publish.{mount_options}
use data_csi.Node.Lifecycle.{Call, stage, publish, unpublish, unstage, publishes_at}
use data_csi.Node.Publish.{ephemeral_path}
use data_csi.Node.Concurrent.Quiet.{
  Quiet-staged_act, Quiet-stage, Quiet-publish, Quiet-unpublish, Quiet-unstage,
}
use data_csi.Node.Concurrent.{act, after_test, test_act, mount_act, node_publish_act}

-- The number of mounts at a path.
abbrev pub mounts_at : {H : Host} → View H → String → World H → ℕ
mounts_at V q w = V.depth w.host q

module _ {H : Host} {V : View H} (L : MountLaws V) (q : String) where
  pub depth-Untouched : Untouched H (λ s. V.depth s q)
  depth-Untouched = record {
    mkdir_all = λ p mode s. omega (arith, L.depth-mkdir_all p mode s q);
    resolve = λ c ref cache s. omega (arith, L.depth-resolve c ref cache s q);
    pull = λ src desc p o s. omega (arith, L.depth-pull src desc p o s q);
    notify =
        λ hosts user src desc p ev s. omega (arith, L.depth-notify hosts user src desc p ev s q);
  }

  -- After the test, a target to mount at has no mount, until the mount is made.
  module _ (path : String) (req : NodePublishVolumeRequest) where
    Bounded-mount_act : Bounded (mounts_at V q) 0 (mount_act {H = H} path req true)
    unfolding mount_act
    Bounded-mount_act = Bounded-map_error (as_internal H) (
        Bounded.stepped 0 _ _ (λ w. 1)
          (λ w d.
            ground
              (arith, L.depth-mount path req.target_path "" (mount_options req.readonly) w.host q))
          (λ w d. Bounded.returned _ _))

    Bounded-made :
        (r : Result Error (Unit {0}))
        → Bounded
            (mounts_at V q)
            0
            (map_error (as_internal H) (done r >>= λ _. pure true) >>= mount_act {H = H} path req)
    unfolding map_error ◌>>=◌
    Bounded-made (ok _) = Bounded-mount_act
    Bounded-made (err x) = Bounded.returned _ _

    Bounded-after_test :
        (b : ℕ) (r : Result Error Bool)
        → b ≤ 1
        → (r ≡ ok true → b ≡ 0)
        → ((x : Error) → r ≡ err x → os_is_not_exist x ≡ true → b ≡ 0)
        → Bounded (mounts_at V q) b (
            map_error (as_internal H) (after_test {H = H} req.target_path r) >>= mount_act path req)
    unfolding after_test map_error ◌>>=◌
    Bounded-after_test b (ok true) l h g = rw (h refl) Bounded-mount_act
    Bounded-after_test b (ok false) l h g = unfold mount_act in Bounded.returned _ _
    Bounded-after_test b (err x) l h g = elim (Bool-cases (os_is_not_exist x)) [
      | inl m ↦
          rw (m, g x refl m)
            (Bounded.stepped 0 _ _ (λ w. 0)
              (λ w d. omega (arith, L.depth-mkdir_all req.target_path 0o750 w.host q))
              (λ w d. Bounded-made (H.mkdir_all req.target_path 0o750 w.host).0))
      | inr m ↦ rw m (Bounded.returned _ _)
    ]

    Bounded-mount :
        req.target_path == q ≡ true
        → Bounded
            (mounts_at V q)
            1
            (map_error (as_internal H) (test_act req.target_path) >>= mount_act {H = H} path req)
    unfolding test_act map_error ◌>>=◌
    Bounded-mount e =
        Bounded.stepped 1 _ _ (mounts_at V q) (λ w d. (d, omega arith))
          (λ w d.
            Bounded-after_test (mounts_at V q w) (H.is_not_mount_point req.target_path w.host) d
              (λ t.
                ground (arith, L.test_ok req.target_path w.host true t, eq_iff req.target_path q))
              (λ x t m. ground (
                arith,
                L.test_missing req.target_path w.host x t (is_not_exist_of_os x m),
                eq_iff req.target_path q,
              )))

  module _ (ns : NodeServer H) where
    -- A call that does not publish at the path adds no mount there.
    pub Quiet-act : (c : Call) → publishes_at q c ≡ false → Keeps (mounts_at V q) (act ns c)
    unfolding act
    Quiet-act (stage req) n = Quiet-stage depth-Untouched ns req
    Quiet-act (publish req) n = Quiet-publish depth-Untouched ns req (λ path s.
        ground (arith, L.depth-mount path req.target_path "" (mount_options req.readonly) s q))
    Quiet-act (unpublish req) n =
        Quiet-unpublish depth-Untouched ns req
          (λ s. ground (arith, L.depth-unmount req.target_path s q))
          (λ s. omega (arith, L.depth-remove_all req.target_path s q))
          (λ s. omega (arith, L.depth-remove_all (ephemeral_path ns req.volume_id) s q))
    Quiet-act (unstage req) n =
        Quiet-unstage depth-Untouched req
          (λ s. omega (arith, L.depth-remove_all req.staging_target_path s q))

    -- A publication at the path keeps it at one mount at most, if nothing else adds one meanwhile.
    pub Bounded-publish :
        (req : NodePublishVolumeRequest)
        → req.target_path == q ≡ true
        → Bounded (mounts_at V q) 1 (act ns (publish req))
    unfolding act node_publish_act
    Bounded-publish req e =
        let one : 1 ≤ 1 = omega arith in
        Bounded-bind one (Keeps-guard _ _) (λ _. Bounded-bind one (Keeps-guard _ _) (λ _.
          Bounded-bind one (Keeps-guard _ _) (λ _.
            Bounded-bind one (Quiet-staged_act depth-Untouched ns req)
              (λ path. Bounded-bind one (Keeps-guard _ _) (λ _. Bounded-mount path req e)))))
