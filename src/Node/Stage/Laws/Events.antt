-- ===== src/Node/Stage/Laws/Events.antt =====
-- The events that a staging sends about the pod, in their order.
use mathlib.Core.List.{append-nil}
use data_csi.Base.{
  String, ◌<>◌, ◌≡◌, false, List, [], ◌∷◌, ◌++◌, is_ok, ok, err, arith, Result-cases, ◌⊎◌, inl, inr,
  none, some,
}
use data_csi.Base.Dict.{Dict, get_or_empty}
use data_csi.Errors.{Error, message}
use data_csi.Event.{
  Event, EventType, get_pod_reference, bottle_pulling, bottle_pulled, bottle_failed,
}
use data_csi.Host.{Host}
use data_csi.Node.Server.{NodeServer, World, emit}
use data_csi.Node.Credentials.{load_credentials}
use data_csi.Node.Stage.{config, pull_options, stage_volume}

module _ {H : Host} (ns : NodeServer H) (context : Dict String) where
  -- The events of one call of the recorder: none where it is nil.
  abbrev sent : EventType → String → String → List Event
  sent event_type reason text = elim ns.recorder [
    | none ↦ []
    | some source ↦
        record {
          source = source;
          object = get_pod_reference context;
          event_type = event_type;
          reason = reason;
          message = text;
        }
        ∷ []
  ]

  abbrev pub pulling : List Event
  pulling =
      sent EventType.normal bottle_pulling ("Pulling bottle " <> get_or_empty "bottle" context)

  abbrev pub pulled : String → List Event
  pulled elapsed = sent EventType.normal bottle_pulled (
      "Successfully pulled bottle "
      <> (get_or_empty "bottle" context <> (" in " <> (elapsed <> " seconds"))))

  abbrev pub failed : String → List Event
  failed text =
      sent EventType.warning bottle_failed
        ("Failed to pull bottle " <> (get_or_empty "bottle" context <> (": " <> text)))

  -- A staging whose credentials are refused sends nothing. One whose reference is not resolved sends
  -- that it pulls, and no more; one whose pull fails, that it pulls and that it failed, with the text of
  -- the pull's error; one that pulls, that it pulls and that it has pulled. Only the last can succeed.
  pub stage_volume_events :
      (path : String) (secrets : Dict String) (w : World H)
      → let (r, w') = stage_volume ns path context secrets w in
        let resolution = λ (store : H.CredentialStore).
          H.resolve_with_telemetry
            (config ns store)
            (get_or_empty "bottle" context)
            ns.cache_dir
            w.host in
        let pulling_result =
          λ (store : H.CredentialStore) (found : H.Source × H.Descriptor × H.TelemetryEvent).
            H.pull found.0 found.1 path (pull_options ns context) (resolution store).1 in
        ((e : Error) × (load_credentials H secrets ≡ err e)
          × (is_ok r ≡ false)
          × (w'.events ≡ w.events))
        ⊎ ((store : H.CredentialStore) × (load_credentials H secrets ≡ ok store)
            × (((e : Error) × ((resolution store).0 ≡ err e)
                  × (is_ok r ≡ false)
                  × (w'.events ≡ w.events ++ pulling))
                ⊎ ((found : H.Source × H.Descriptor × H.TelemetryEvent) × ((resolution store).0
                      ≡ ok found)
                    × (((e : Error) × ((pulling_result store found).0 ≡ err e)
                          × (is_ok r ≡ false)
                          × (w'.events ≡ (w.events ++ pulling) ++ failed (message H.status_text e)))
                        ⊎ (((pulling_result store found).0 ≡ ok tt)
                            × (w'.events
                                ≡ (w.events ++ pulling)
                                  ++ pulled
                                      (H.since (H.now w.host) (pulling_result store found).1)))))))
  unfolding stage_volume emit
  stage_volume_events path secrets w = elim (Result-cases (load_credentials H secrets)) [
    | inr (e, p) ↦ inl (e, p, ground arith, ground arith)
    | inl (store, p) ↦
        let resolution =
          H.resolve_with_telemetry (config ns store) (get_or_empty "bottle" context) ns.cache_dir
            w.host in
        inr (
          store,
          p,
          elim (Result-cases resolution.0) [
            | inr (e, q) ↦ inl (e, q, ground arith, ground (arith, append-nil w.events))
            | inl (found, q) ↦
                let pulling_result =
                  H.pull found.0 found.1 path (pull_options ns context) resolution.1 in
                inr (
                  found,
                  q,
                  elim (Result-cases pulling_result.0) [
                    | inr (e, u) ↦ inl (e, u, ground arith, ground (arith, append-nil w.events))
                    | inl (_, u) ↦ inr (u, ground (arith, append-nil w.events))
                  ],
                )
          ],
        )
  ]
