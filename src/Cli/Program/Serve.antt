-- ===== src/Cli/Program/Serve.antt =====
-- When the command `serve` goes on to serve calls.
use data_csi.Base.{
  String, ◌≡◌, ◌≢◌, ◌↔◌, refl, ◌⊎◌, inl, inr, List, [], ◌∷◌, true, Result, ok, err, is_ok,
  Bool-cases, All, arith,
}
use data_csi.Errors.{Error}
use data_csi.Host.{Host}
use data_csi.Driver.{Driver}
use data_csi.Driver.Run.{open_listener}
use data_csi.Driver.Group.{Group}
use data_csi.Driver.Serving.{Server, Serving, begun, begin, is_positive}
use data_csi.Cli as Cli
use data_csi.Cli.{ServeFlags, Served, check_path, default_flags, serve, get_version}
use data_csi.Cli.Laws.{prune_period-serve}
use data_csi.Cli.Cobra.{accepts, is_plain, State, Ran, Library, LibraryLaws}
use data_csi.Cli.Program.{exits, goes_on, exit, ran, run_served, new_serve_cmd, main}
use data_csi.Cli.Program.Laws.{find_serve, main_accepted, main_refused}

module _ {H : Host} {G : Group} {Lib : Library H G} (L : LibraryLaws Lib) where
  -- How `RunE` of `serve` ends.
  abbrev GoesOn : Ran H G → Type 0
  GoesOn how = (srv : Server H) × (g : Serving H G) × (exit how ≡ goes_on srv g)

  ran-GoesOn :
      (d : Driver H) (p : Result Error (Unit {0}) × H.State) (printed : List String)
      → GoesOn (ran (begun G d p) printed).0
        ↔ ((is_ok p.0 ≡ true) × (is_positive d.prune_period ≡ true))
  unfolding ran begun exit
  ran-GoesOn d (err e, h) printed = (λ (srv, g, q). cc, λ (o, q). cc)
  ran-GoesOn d (ok tt, h) printed = elim (Bool-cases (is_positive d.prune_period)) [
    | inl positive ↦ (λ (srv, g, q). (refl, positive), λ (o, q). rw positive (_, _, refl))
    | inr other ↦ (λ (srv, g, q). absurd (cc (rw other at q)), λ (o, q). cc)
  ]

  run_served-GoesOn :
      (r : Served H) (s : State H G)
      → GoesOn (run_served r s).0 ↔ (
          (d : Driver H) × (r ≡ Cli.runs d)
          × (is_ok (open_listener d s.host).0 ≡ true)
          × (is_positive d.prune_period ≡ true))
  unfolding run_served exit begin
  run_served-GoesOn (Cli.refused e) s = (λ (srv, g, q). cc, λ (d, q, o, p). cc)
  run_served-GoesOn (Cli.panics text) s = (λ (srv, g, q). cc, λ (d, q, o, p). cc)
  run_served-GoesOn (Cli.runs d) s =
      let (to, of) = ran-GoesOn d (open_listener d s.host) s.printed in
      (
        λ g. let (o, p) = to g in (d, refl, o, p),
        λ (c, q, o, p). let same : c ≡ d = cc (q) in of (rw same at o, rw same at p),
      )

  main-run_served :
      (version info_version : String) (s : State H G)
      → All (λ arg. is_plain arg ≡ true) []
      → let flags = default_flags Lib.env_or Lib.env_duration_or in
        let served =
          serve H Lib.parse_bytes Lib.location (get_version version info_version) flags in
        let (how, left) = run_served served s in
        main Lib version info_version ("serve" ∷ []) s ≡ (exit how, left)
  unfolding accepts new_serve_cmd
  main-run_served version info_version s plain =
      main_accepted L version info_version "serve" [] s
        (new_serve_cmd Lib (get_version version info_version))
        (find_serve L (get_version version info_version)) plain refl

  -- The command `serve`, with no flags, goes on serving exactly if the flags that the environment
  -- gives make a driver, its listener opens, and the prune period is positive. An argument is an
  -- error, for which the program exits with 1 and does nothing.
  pub main-serve :
      (version info_version : String) (args : List String) (s : State H G)
      → All (λ arg. is_plain arg ≡ true) args
      → let flags = default_flags Lib.env_or Lib.env_duration_or in
        let ended = main Lib version info_version ("serve" ∷ args) s in
        ((args ≡ [])
          × (((srv : Server H) × (g : Serving H G) × (ended.0 ≡ goes_on srv g)) ↔ (
              (d : Driver H) × (serve H Lib.parse_bytes Lib.location
                  (get_version version info_version)
                  flags
                ≡ Cli.runs d)
              × (is_ok (open_listener d s.host).0 ≡ true)
              × (is_positive flags.prune_period ≡ true))))
        ⊎ ((args ≢ []) × (ended ≡ (exits 1, s)))
  unfolding accepts
  main-serve version info_version [] s plain =
      let v = get_version version info_version in
      let flags = default_flags Lib.env_or Lib.env_duration_or in
      let served = serve H Lib.parse_bytes Lib.location v flags in
      let period = prune_period-serve H Lib.parse_bytes Lib.location v flags in
      let ran_it = main-run_served version info_version s plain in
      let (to, of) = run_served-GoesOn served s in
      inl (
        refl,
        (
          λ (srv, g, e).
              let (d, q, o, p) = to (srv, g, rw ran_it at e) in (d, q, o, rw (period d q) at p),
          λ (d, q, o, p).
              let (srv, g, e) = of (d, q, o, rw (← period d q) at p) in (srv, g, rw ran_it e),
        ),
      )
  main-serve version info_version (arg ∷ args) s plain = inr (
    λ e. cc,
    main_refused L version info_version "serve" (arg ∷ args) s (new_serve_cmd Lib _)
        (find_serve L (get_version version info_version)) plain
        (unfold new_serve_cmd in ground arith),
  )
