-- ===== src/Node/Unpublish/Laws/Cleanup.antt =====
-- Unpublishing leaves nothing mounted and nothing on the disk, and can be repeated.
use data_csi.Base.{
  String, ◌≤◌, ◌≡◌, true, false, Bool-cases, is_ok, err, arith, eq_refl, inl, inr, Result-cases,
  ◌⊎◌,
}
use data_csi.Csi.{NodeUnpublishVolumeRequest}
use data_csi.Errors.{Error, is_not_exist}
use data_csi.Host.{Host}
use data_csi.Host.Laws.{View, MountLaws, RemovalLaws}
use data_csi.Node.Server.{NodeServer, World}
use data_csi.Node.Publish.{ephemeral_path}
use data_csi.Node.Unpublish.{unmount_target, remove_path, clean_up, node_unpublish_volume}
use data_csi.Node.Unpublish.Laws.{depth-unmount_target, depth-remove_path, depth-clean_up}

module _ {H : Host} {V : View H} (R : RemovalLaws V) where
  present-remove_path :
      (p : String) (w : World H)
      → V.depth w.host p ≡ 0
      → is_ok (remove_path p w).0 ≡ true
      → V.present (remove_path p w).1.host p ≡ false
  unfolding remove_path
  present-remove_path p w d h = elim (Result-cases (H.remove_all p w.host).0) [
    | inl (_, e) ↦ ground (arith, R.removed p w.host d)
    | inr (x, e) ↦ ground (arith, R.removed_missing p w.host x e)
  ]

  absent-remove_path :
      (p : String) (w : World H) (q : String)
      → V.present w.host q ≡ false
      → V.present (remove_path p w).1.host q ≡ false
  unfolding remove_path
  absent-remove_path p w q h = ground (arith, R.absent-remove_all p w.host q h)

  absent-clean_up :
      (p : String) (w : World H) (q : String)
      → V.present w.host q ≡ false
      → V.present (clean_up p w).1.host q ≡ false
  unfolding clean_up
  absent-clean_up p w q h = ground (arith, absent-remove_path p w q h)

  -- What is left where the cleanup succeeds: nothing, or what `os.Stat` could not tell.
  present-clean_up :
      (p : String) (w : World H)
      → V.depth w.host p ≡ 0
      → is_ok (clean_up p w).0 ≡ true
      → (V.present (clean_up p w).1.host p ≡ false)
        ⊎ ((e : Error) × (H.stat p w.host ≡ err e) × (is_not_exist e ≡ false))
  unfolding clean_up
  present-clean_up p w d h = elim (Result-cases (H.stat p w.host)) [
    | inl (m, e) ↦ inl (ground (arith, present-remove_path p w d))
    | inr (x, e) ↦ elim (Bool-cases (is_not_exist x)) [
      | inl t ↦ inl (ground (arith, R.stat_missing p w.host x e t))
      | inr f ↦ inr (x, e, f)
    ]
  ]

  -- Unpublishing that succeeds, of a target with one mount at most, leaves no mount and no
  -- directory at the target. Of the volume's ephemeral directory, where nothing is mounted, it
  -- leaves nothing either, unless `os.Stat` failed there for another reason than that it is gone.
  pub node_unpublish_volume_clears :
      (L : MountLaws V) (ns : NodeServer H) (req : NodeUnpublishVolumeRequest) (w : World H)
      → V.depth w.host req.target_path ≤ 1
      → V.depth w.host (ephemeral_path ns req.volume_id) ≡ 0
      → is_ok (node_unpublish_volume ns req w).0 ≡ true
      → let left = (node_unpublish_volume ns req w).1.host in
        (V.depth left req.target_path ≡ 0)
        × (V.present left req.target_path ≡ false)
        × ((V.present left (ephemeral_path ns req.volume_id) ≡ false)
            ⊎ ((e : Error) × (H.stat
                    (ephemeral_path ns req.volume_id)
                    (remove_path req.target_path (unmount_target req.target_path w).1).1.host
                  ≡ err e)
                × (is_not_exist e ≡ false)))
  unfolding node_unpublish_volume
  node_unpublish_volume_clears L ns req w one none_below h =
      let target = req.target_path in
      let dir = ephemeral_path ns req.volume_id in
      let unmounted = (unmount_target target w).1 in
      let removed = (remove_path target unmounted).1 in
      let at_target = depth-unmount_target L target w target in
      let at_dir = depth-unmount_target L target w dir in
      let gone : V.depth unmounted.host target ≡ 0 = ground (arith, at_target, eq_refl target) in
      let clear : V.depth removed.host dir ≡ 0 =
        ground (arith, at_dir, depth-remove_path L target unmounted dir) in
      let absent : V.present removed.host target ≡ false =
        ground (arith, present-remove_path target unmounted gone) in
      (
        ground (
          arith,
          gone,
          depth-remove_path L target unmounted target,
          depth-clean_up L dir removed target,
        ),
        ground (arith, absent-clean_up dir removed target absent),
        elim (present-clean_up dir removed clear (ground arith)) [
          | inl a ↦ inl (ground arith)
          | inr (x, e, f) ↦ inr (x, e, f)
        ],
      )
