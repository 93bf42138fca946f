-- ===== src/Node/Stage/Laws.antt =====
-- What a staging does on each of its branches.
pub mod Events
pub mod Selectors
use data_csi.Base.{String, ◌+◌, ◌≡◌, true, ok, is_ok, arith, if◌then◌else◌, Result-cases, inl, inr}
use data_csi.Base.Dict.{Dict, get_or_empty}
use data_csi.Csi.{NodeStageVolumeRequest}
use data_csi.Host.{Host, Config, PullOptions}
use data_csi.Host.Laws.{View, MountLaws}
use data_csi.Node.Server.{NodeServer, World, emit}
use data_csi.Node.Credentials.{load_credentials}
use data_csi.Node.Stage.{config, pull_options, label_selectors, stage_volume, node_stage_volume}

module _ {H : Host} (ns : NodeServer H) where
  -- The counter of bottles rises by one where the staging succeeds, and else stays.
  pub bottle_counter-stage_volume :
      (path : String) (context secrets : Dict String) (w : World H)
      → let (r, w') = stage_volume ns path context secrets w in
        w'.bottle_counter ≡ (if is_ok r then w.bottle_counter + 1 else w.bottle_counter)
  unfolding stage_volume emit
  bottle_counter-stage_volume path context secrets w = ground arith

  -- Staging mounts and unmounts nothing.
  pub depth-stage_volume :
      {V : View H} (L : MountLaws V) (path : String) (context secrets : Dict String) (w : World H)
      (q : String)
      → V.depth (stage_volume ns path context secrets w).1.host q ≡ V.depth w.host q
  unfolding stage_volume emit
  depth-stage_volume L path context secrets w q =
      grind (arith, L.depth-resolve, L.depth-pull, L.depth-notify)

  pub depth-node_stage_volume :
      {V : View H} (L : MountLaws V) (req : NodeStageVolumeRequest) (w : World H) (q : String)
      → V.depth (node_stage_volume ns req w).1.host q ≡ V.depth w.host q
  unfolding node_stage_volume
  depth-node_stage_volume L req w q =
      let staged =
        depth-stage_volume L req.staging_target_path req.volume_context req.secrets w q in
      ground (arith, staged)

  -- A staging that succeeds has read the credentials into a store, resolved the volume's bottle with
  -- that store, the telemetry servers and the cache of the service, and pulled what it resolved into
  -- the staging path, through that cache and with the selectors that are read from the context.
  pub stage_volume_pulls :
      (path : String) (context secrets : Dict String) (w : World H)
      → is_ok (stage_volume ns path context secrets w).0 ≡ true
      → (store : H.CredentialStore) × (found : H.Source × H.Descriptor × H.TelemetryEvent)
        × (load_credentials H secrets ≡ ok store)
        × (let given : Config H.types = record {
          user_agent = "ace-data-csi-driver";
          credential_store = store;
          telem_hosts = ns.telem_hosts;
          telem_user_name = ns.telem_user_name;
          cache_path = ns.cache_dir;
        } in
            let options : PullOptions = record {
              cache_path = ns.cache_dir;
              labels = label_selectors context;
            } in
            let (r, h) =
              H.resolve_with_telemetry given (get_or_empty "bottle" context) ns.cache_dir w.host in
            (r ≡ ok found) × ((H.pull found.0 found.1 path options h).0 ≡ ok tt))
  unfolding stage_volume emit config pull_options
  stage_volume_pulls path context secrets w h = elim (Result-cases (load_credentials H secrets)) [
    | inr (e, p) ↦ absurd (ground arith)
    | inl (store, p) ↦
        elim (Result-cases
          (H.resolve_with_telemetry (config ns store) (get_or_empty "bottle" context) ns.cache_dir
            w.host).0) [
              | inr (e, q) ↦ absurd (ground arith)
              | inl (found, q) ↦ (store, found, p, (q, ground arith))
            ]
  ]
