-- ===== src/Node/Unpublish/Laws.antt =====
-- What unpublishing and unstaging leave on the machine.
pub mod Cleanup
use data_csi.Base.{
  String, ℕ, ◌+◌, ◌-◌, ◌≤◌, ◌≡◌, refl, true, false, Bool-cases, is_ok, ok, err, arith, ◌==◌, eq_iff,
  eq_refl, inl, inr, if◌then◌else◌, Result-cases, ◌&&◌, ◌⊎◌, not,
}
use data_csi.Csi.{NodeUnpublishVolumeRequest, NodeUnstageVolumeRequest}
use data_csi.Errors.{Error, is_not_exist}
use data_csi.Host.{Host}
use data_csi.Host.Laws.{View, MountLaws, RemovalLaws, AbsenceLaws}
use data_csi.Node.Server.{NodeServer, World}
use data_csi.Node.Publish.{ephemeral_path}
use data_csi.Node.Unpublish.{unmount_target, remove_path, clean_up, node_unpublish_volume}
use data_csi.Node.Unstage.{remove_staging, node_unstage_volume}

module _ {H : Host} {V : View H} (L : MountLaws V) where
  -- At other paths the mounts stay; at the target one goes if there is any and the call succeeds.
  pub depth-unmount_target :
      (p : String) (w : World H) (q : String)
      → let (r, w') = unmount_target p w in
        V.depth w'.host q ≡ (if is_ok r && p == q then V.depth w.host q - 1 else V.depth w.host q)
  unfolding unmount_target
  depth-unmount_target p w q = elim (Result-cases (H.is_not_mount_point p w.host)) [
    | inl (b, e) ↦ ground (arith, L.test_ok p w.host b e, L.depth-unmount p w.host q, eq_iff p q)
    | inr (x, e) ↦ ground (arith, L.test_missing p w.host x e, eq_iff p q)
  ]

  pub depth-remove_path :
      (p : String) (w : World H) (q : String)
      → V.depth (remove_path p w).1.host q ≡ V.depth w.host q
  unfolding remove_path
  depth-remove_path p w q = ground (arith, L.depth-remove_all p w.host q)

  pub depth-clean_up :
      (p : String) (w : World H) (q : String) → V.depth (clean_up p w).1.host q ≡ V.depth w.host q
  unfolding clean_up
  depth-clean_up p w q = ground (arith, depth-remove_path p w q)

  -- Unstaging mounts and unmounts nothing.
  pub depth-node_unstage_volume :
      (req : NodeUnstageVolumeRequest) (w : World H) (q : String)
      → V.depth (node_unstage_volume req w).1.host q ≡ V.depth w.host q
  unfolding node_unstage_volume remove_staging
  depth-node_unstage_volume req w q =
      ground (arith, L.depth-remove_all req.staging_target_path w.host q)

  module _ (ns : NodeServer H) (req : NodeUnpublishVolumeRequest) where
    -- Unpublishing that succeeds takes one mount from the target, if there is any, and at other
    -- paths leaves all; where it fails no path has more mounts than before.
    pub depth-node_unpublish_volume :
        (w : World H) (q : String)
        → let (r, w') = node_unpublish_volume ns req w in
          (is_ok r ≡ true
            → V.depth w'.host q
              ≡ (if req.target_path == q then V.depth w.host q - 1 else V.depth w.host q))
          × (V.depth w'.host q ≤ V.depth w.host q)
    unfolding node_unpublish_volume
    depth-node_unpublish_volume w q =
        let unmounted = (unmount_target req.target_path w).1 in
        let removed = (remove_path req.target_path unmounted).1 in
        ground (
          arith,
          depth-unmount_target req.target_path w q,
          depth-remove_path req.target_path unmounted q,
          depth-clean_up (ephemeral_path ns req.volume_id) removed q,
        )
