-- ===== src/Node/Concurrent/Careful.antt =====
-- What an unpublication loses at its target, while no mount is added there.
use data_csi.Base.{
  String, ℕ, ◌≤◌, ◌≡◌, refl, Bool, true, false, ok, err, is_ok, arith, ◌==◌, eq_iff, Result,
  Bool-cases, inl, inr, if◌then◌else◌,
}
use data_csi.Base.Act.{done, atomic, ◌>>=◌, map_error}
use data_csi.Base.Measure.{Keeps, Careful, Careful-guard}
use data_csi.Csi.{NodeUnpublishVolumeRequest}
use data_csi.Errors.{Error, Status, is_not_exist}
use data_csi.Host.{Host, FileMode}
use data_csi.Host.Laws.{View, MountLaws, LossLaws}
use data_csi.Node.Server.{NodeServer, World, as_internal}
use data_csi.Node.Publish.{ephemeral_path, mount_options}
use data_csi.Node.Unpublish.{remove_path}
use data_csi.Node.Lifecycle.{Call, stage, publish, unpublish, unstage}
use data_csi.Node.Concurrent.{
  Handler, act, unmount_tested, unmount_act, clean_up_act, clean_up_found, node_unpublish_act,
}
use data_csi.Node.Concurrent.Quiet.{
  host-remove_path, Quiet-stage, Quiet-publish, Quiet-unpublish, Quiet-unstage,
}
use data_csi.Node.Concurrent.Depth.{mounts_at}

-- Whether a call takes mounts and what is there away from a path, as its target.
abbrev pub unpublishes_at : String → Call → Bool
unpublishes_at q (unpublish req) = req.target_path == q
unpublishes_at q _ = false

-- That a call removes nothing from which a path is reached, but for an unpublication of that path.
abbrev pub RemovesElsewhere :
    {H : Host} → NodeServer H → (String → String → Bool) → String → Call → Type 0
RemovesElsewhere ns reaches q (unpublish req) =
    req.target_path == q ≡ false
    → (reaches req.target_path q ≡ false) × (reaches (ephemeral_path ns req.volume_id) q ≡ false)
RemovesElsewhere ns reaches q (unstage req) = reaches req.staging_target_path q ≡ false
RemovesElsewhere ns reaches q _ = Unit

module _ {H : Host} {V : View H} {reaches : String → String → Bool} {q : String}
    {lost : H.State → ℕ} (L : MountLaws V) (K : LossLaws V reaches q lost) where
  -- What was lost at the path.
  abbrev pub lost_at : World H → ℕ
  lost_at w = lost w.host

  elsewhere :
      (path : String) (s : H.State) → reaches path q ≡ false → lost (H.remove_all path s).1 ≤ lost s
  elsewhere path s n = K.lost-remove_all path s (λ e. absurd (cc (n, e)))

  module _ (ns : NodeServer H) where
    -- A call that does not remove at the path loses nothing there.
    pub lost-act :
        (c : Call)
        → unpublishes_at q c ≡ false
        → RemovesElsewhere ns reaches q c
        → Keeps lost_at (act ns c)
    unfolding act
    lost-act (stage req) n e = Quiet-stage K.untouched ns req
    lost-act (publish req) n e =
        Quiet-publish K.untouched ns req
          (λ path s. K.lost-mount path req.target_path "" (mount_options req.readonly) s)
    lost-act (unpublish req) n e =
        Quiet-unpublish K.untouched ns req (K.lost-unmount req.target_path)
          (λ s. elsewhere req.target_path s (e n).0)
          (λ s. elsewhere (ephemeral_path ns req.volume_id) s (e n).1)
    lost-act (unstage req) n e =
        Quiet-unstage K.untouched req (λ s. elsewhere req.staging_target_path s e)

    module _ (req : NodeUnpublishVolumeRequest) (at : req.target_path == q ≡ true) where
      abbrev Gentle : {A : Type 0} → ℕ → Handler H A → Type 0
      Gentle b m = Careful (mounts_at V q) lost_at b m

      -- Where nothing is mounted at the path, a removal loses nothing there.
      nothing_lost :
          (path : String) (w : World H)
          → V.depth w.host q ≤ 0
          → lost (H.remove_all path w.host).1 ≤ lost w.host
      nothing_lost path w d = K.lost-remove_all path w.host (λ e. omega (arith, d))

      Gentle-remove_path : (path : String) → Gentle 0 (atomic (remove_path {H = H} path))
      Gentle-remove_path path =
          Careful.stepped 0 _ _ (λ w. 0)
            (λ w.
              rw (host-remove_path path w, mounts_at)
                (omega (arith, L.depth-remove_all path w.host q)))
            (λ w d.
              rw (host-remove_path path w, mounts_at, lost_at)
                (omega (arith, L.depth-remove_all path w.host q), nothing_lost path w d))
            (λ w d. Careful.returned 0 _)

      Gentle-found :
          (path : String) (r : Result Error FileMode) → Gentle 0 (clean_up_found {H = H} path r)
      unfolding clean_up_found
      Gentle-found path (ok mode) = Gentle-remove_path path
      Gentle-found path (err e) = Careful.returned 0 _

      Gentle-clean_up :
          (r : Result Status (Unit {0}))
          → Gentle 0 (done r >>= λ _. clean_up_act (ephemeral_path ns req.volume_id))
      unfolding ◌>>=◌ clean_up_act
      Gentle-clean_up (err e) = Careful.returned 0 _
      Gentle-clean_up (ok _) =
          let path = ephemeral_path ns req.volume_id in
          Careful.stepped 0 (λ w. w) _ (λ w. 0) (λ w. omega arith) (λ w d. (d, omega arith))
            (λ w d. Gentle-found path (H.stat path w.host))

      -- What follows the unmount.
      abbrev removal : Handler H (Unit {0})
      removal = atomic (remove_path req.target_path) >>= λ _.
          clean_up_act (ephemeral_path ns req.volume_id)

      Gentle-removal : Gentle 0 removal
      unfolding ◌>>=◌
      Gentle-removal =
          Careful.stepped 0 _ _ (λ w. 0)
            (λ w.
              rw (host-remove_path req.target_path w, mounts_at)
                (omega (arith, L.depth-remove_all req.target_path w.host q)))
            (λ w d.
              rw (host-remove_path req.target_path w, mounts_at, lost_at)
                (
                  omega (arith, L.depth-remove_all req.target_path w.host q),
                  K.lost-remove_all req.target_path w.host
                      (λ e. ground (arith, eq_iff req.target_path q)),
                ))
            (λ w d. Gentle-clean_up (remove_path req.target_path w).0)

      Gentle-unmounted :
          (r : Result Error (Unit {0})) (b : ℕ)
          → (is_ok r ≡ true → b ≡ 0)
          → Gentle b (map_error (as_internal H) (done r) >>= λ _. removal)
      unfolding map_error ◌>>=◌
      Gentle-unmounted (ok _) b z = rw (z refl) Gentle-removal
      Gentle-unmounted (err e) b z = Careful.returned b _

      Gentle-tested :
          (b : ℕ) (r : Result Error Bool)
          → b ≤ 1
          → (r ≡ ok true → b ≡ 0)
          → ((x : Error) → r ≡ err x → is_not_exist x ≡ true → b ≡ 0)
          → Gentle b (unmount_tested {H = H} req.target_path r >>= λ _. removal)
      unfolding unmount_tested ◌>>=◌ map_error
      Gentle-tested b (ok true) l h g = rw (h refl) Gentle-removal
      Gentle-tested b (ok false) l h g =
          Careful.stepped b _ _ (λ w. if is_ok (H.unmount req.target_path w.host).0 then 0 else 1)
            (λ w. ground (arith, L.depth-unmount req.target_path w.host q))
            (λ w d. (
              ground (arith, L.depth-unmount req.target_path w.host q),
              K.lost-unmount req.target_path w.host,
            ))
            (λ w d. Gentle-unmounted (H.unmount req.target_path w.host).0 _ (λ e. rw e refl))
      Gentle-tested b (err x) l h g = elim (Bool-cases (is_not_exist x)) [
        | inl m ↦ rw (m, g x refl m) Gentle-removal
        | inr m ↦ rw m (Careful.returned b _)
      ]

      Gentle-unmount : Gentle 1 (unmount_act {H = H} req.target_path >>= λ _. removal)
      unfolding unmount_act ◌>>=◌
      Gentle-unmount =
          Careful.stepped 1 (λ w. w) _ (mounts_at V q) (λ w. omega arith)
            (λ w d. (omega arith, omega arith))
            (λ w d.
              Gentle-tested (mounts_at V q w) (H.is_not_mount_point req.target_path w.host) d
                (λ t.
                  ground (arith, L.test_ok req.target_path w.host true t, eq_iff req.target_path q))
                (λ x t m.
                  ground
                    (arith, L.test_missing req.target_path w.host x t m, eq_iff req.target_path q)))

      -- An unpublication at the path loses nothing there, if there is one mount at most and none is
      -- added meanwhile.
      pub Careful-unpublish : Careful (mounts_at V q) lost_at 1 (act ns (unpublish req))
      unfolding act node_unpublish_act
      Careful-unpublish = Careful-guard 1 _ _ _ (Careful-guard 1 _ _ _ Gentle-unmount)
