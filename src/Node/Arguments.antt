-- ===== src/Node/Arguments.antt =====
-- Which requests the node service refuses for what they lack, and that a refusal changes nothing.
use data_csi.Base.{
  String, ◌≡◌, refl, ◌≢◌, true, Bool-cases, Option, none, some, Result, ok, err, Exec, guard, ◌>>=◌,
  ◌>>◌, mapped, not, is_some, arith, ◌⊎◌, inl, inr, ◌==◌, eq_iff,
}
use data_csi.Errors.{Error, Status, internal, FailsOnlyWith, fails_only}
use data_csi.Csi.{
  NodeStageVolumeRequest, NodePublishVolumeRequest, NodeUnpublishVolumeRequest,
  NodeUnstageVolumeRequest,
}
use data_csi.Host.{Host}
use data_csi.Go.Filepath.Laws.{join-ne-empty}
use data_csi.Node.Server.{NodeServer, World, as_internal, invalid}
use data_csi.Node.Stage.{stage_volume, node_stage_volume}
use data_csi.Node.Publish.{
  is_ephemeral, ephemeral_path, staged_path, mount_target, node_publish_volume,
}
use data_csi.Node.Unpublish.{remove_path, unmount_target, clean_up, node_unpublish_volume}
use data_csi.Node.Unstage.{remove_staging, node_unstage_volume}

-- A call on a complete request fails with the code `Internal` if it fails; on any other request it
-- fails with `InvalidArgument`, and what it may change is as it was.
abbrev pub Checks : {S : Type 0} → Type 0 → Result Status (Unit {0}) × S → S → Type 0
Checks Complete outcome s =
    (Complete × FailsOnlyWith internal outcome.0)
    ⊎ ((¬ Complete) × ((text : String) × (outcome ≡ (err (invalid text), s))))

module _ {S : Type 0} (C : Type 0) (k : Exec S Status (Unit {0})) (s : S) where
  -- One more text that must not be empty.
  Checks-text :
      (given message : String)
      → (given ≢ "" → Checks C (k s) s)
      → Checks ((given ≢ "") × C) ((guard (not (given == "")) (invalid message) >> k) s) s
  Checks-text given message rest = elim (Bool-cases (given == "")) [
    | inl e ↦ inr (λ c. c.0 ((eq_iff given "").0 e), (message, rw e))
    | inr e ↦
        let present : given ≢ "" = λ p. ground (arith, eq_iff given "") in
        elim (rest present) [
          | inl (c, f) ↦ inl ((present, c), rw e f)
          | inr (n, (text, p)) ↦ inr (λ c. n c.1, (text, rw e p))
        ]
  ]

  -- One more message that must not be nil.
  Checks-some :
      {A : Type 0} (given : Option A) (message : String)
      → Checks C (k s) s
      → Checks ((is_some given ≡ true) × C) ((guard (is_some given) (invalid message) >> k) s) s
  Checks-some none message rest = inr (λ c. cc (c.0), (message, refl))
  Checks-some (some a) message rest = elim rest [
    | inl (c, f) ↦ inl ((refl, c), f)
    | inr (n, p) ↦ inr (λ c. n c.1, p)
  ]

mapped-internal :
    (H : Host) {S A : Type 0} (outcome : Result Error A × S) {st : Status}
    → (mapped (as_internal H) outcome).0 ≡ err st
    → st.code ≡ internal
mapped-internal H (ok a, s) h = cc
mapped-internal H (err e, s) h = ground arith

module _ {H : Host} where
  -- Staging wants the volume's id, a staging path and a capability. A request that lacks one
  -- fails with `InvalidArgument` and changes nothing; a complete one, if it fails, fails with
  -- `Internal`.
  pub node_stage_volume-Checks :
      (ns : NodeServer H) (req : NodeStageVolumeRequest) (w : World H)
      → Checks
          ((req.volume_id ≢ "")
            × ((req.staging_target_path ≢ "") × ((is_some req.volume_capability ≡ true) × Unit)))
          (node_stage_volume ns req w)
          w
  unfolding node_stage_volume
  node_stage_volume-Checks ns req w = Checks-text _ _ w req.volume_id _ (λ _.
      Checks-text _ _ w req.staging_target_path _ (λ _.
        Checks-some _ _ w req.volume_capability _
          (inl (tt, fails_only _ (λ st e. mapped-internal H _ e)))))

  -- Unstaging wants the volume's id and a staging path. A request that lacks one fails with
  -- `InvalidArgument` and changes nothing; a complete one, if it fails, fails with `Internal`.
  pub node_unstage_volume-Checks :
      (req : NodeUnstageVolumeRequest) (w : World H)
      → Checks
          ((req.volume_id ≢ "") × ((req.staging_target_path ≢ "") × Unit))
          (node_unstage_volume req w)
          w
  unfolding node_unstage_volume remove_staging
  node_unstage_volume-Checks req w = Checks-text _ _ w req.volume_id _ (λ _.
      Checks-text _ _ w req.staging_target_path _
        (λ _. inl (tt, fails_only _ (λ st e. ground arith))))

  -- Unpublishing wants the volume's id and a target path. A request that lacks one fails with
  -- `InvalidArgument` and changes nothing; a complete one, if it fails, fails with `Internal`.
  pub node_unpublish_volume-Checks :
      (ns : NodeServer H) (req : NodeUnpublishVolumeRequest) (w : World H)
      → Checks
          ((req.volume_id ≢ "") × ((req.target_path ≢ "") × Unit))
          (node_unpublish_volume ns req w)
          w
  unfolding node_unpublish_volume remove_path unmount_target clean_up
  node_unpublish_volume-Checks ns req w = Checks-text _ _ w req.volume_id _ (λ _.
      Checks-text _ _ w req.target_path _ (λ _. inl (tt, fails_only _ (λ st e. ground arith))))

  mount_target-internal :
      (ns : NodeServer H) (req : NodePublishVolumeRequest) (staging_path : String) (w : World H)
      {st : Status}
      → (mount_target ns staging_path req w).0 ≡ err st
      → st.code ≡ internal
  unfolding mount_target
  mount_target-internal ns req staging_path w h = ground arith

  -- The directory of an ephemeral volume has a path that is not empty.
  pub ephemeral_path-ne-empty :
      (ns : NodeServer H) (id : String) → id ≢ "" → ephemeral_path ns id ≢ ""
  unfolding ephemeral_path
  ephemeral_path-ne-empty ns id h = join-ne-empty ns.ephemeral_staging_dir id h

  publish_tail :
      (ns : NodeServer H) (req : NodePublishVolumeRequest) (w : World H)
      → req.volume_id ≢ ""
      → Checks
          ((is_ephemeral req.volume_context ≡ true) ⊎ (req.staging_target_path ≢ ""))
          ((staged_path ns req >>= λ staging_path.
              (guard (not (staging_path == "")) (invalid "Staging Target Path must be provided")
                >> mount_target ns staging_path req))
            w)
          w
  unfolding staged_path
  publish_tail ns req w h = elim (Bool-cases (is_ephemeral req.volume_context)) [
    | inl e ↦
        let path = ephemeral_path ns req.volume_id in
        let staged = stage_volume ns path req.volume_context req.secrets w in
        inl (
          inl e,
          fails_only _ (λ st f. ground (
            arith,
            eq_iff path "",
            ephemeral_path-ne-empty ns req.volume_id h,
            mount_target-internal ns req path staged.1 {st = st},
          )),
        )
    | inr e ↦ elim (Bool-cases (req.staging_target_path == "")) [
      | inl p ↦ inr (
        λ c. ground (arith, eq_iff req.staging_target_path ""),
        ("Staging Target Path must be provided", ground arith),
      )
      | inr p ↦ inl (
        inr (λ q. ground (arith, eq_iff req.staging_target_path "")),
        fails_only _ (λ st f.
            mount_target-internal ns req req.staging_target_path w {st = st} (ground arith)),
      )
    ]
  ]

  -- Publishing wants a capability, the volume's id, a target path, and for a volume that is not
  -- ephemeral a staging path (the path that is made for an ephemeral one is never empty). A
  -- request that lacks one fails with `InvalidArgument` and changes nothing; a complete one, if
  -- it fails, fails with `Internal`.
  pub node_publish_volume-Checks :
      (ns : NodeServer H) (req : NodePublishVolumeRequest) (w : World H)
      → Checks
          ((is_some req.volume_capability ≡ true)
            × ((req.volume_id ≢ "")
                × ((req.target_path ≢ "")
                    × ((is_ephemeral req.volume_context ≡ true) ⊎ (req.staging_target_path ≢ "")))))
          (node_publish_volume ns req w)
          w
  unfolding node_publish_volume
  node_publish_volume-Checks ns req w = Checks-some _ _ w req.volume_capability _ (
      Checks-text _ _ w req.volume_id _
        (λ h. Checks-text _ _ w req.target_path _ (λ _. publish_tail ns req w h)))
