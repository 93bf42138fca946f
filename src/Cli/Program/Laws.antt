-- ===== src/Cli/Program/Laws.antt =====
-- What the program does for its arguments, and how it exits.
use data_csi.Base.{
  if◌then◌else◌, String, ◌≡◌, ◌≢◌, refl, ◌∙◌, ◌⊎◌, inl, inr, List, [], ◌∷◌, ◌++◌, true, false,
  Option, none, some, ok, err, Result-cases, Bool-cases, All, ◌==◌, length, arith,
}
use data_csi.Errors.{Error, os_is_not_exist}
use data_csi.Go.Texts.{cut}
use data_csi.Host.{Host, FileMode, regular, directory, other_mode}
use data_csi.Driver.Group.{Group}
use data_csi.Cli.{mode_word, check_path, get_version}
use data_csi.Cli.Cobra.{accepts, is_plain, State, Command, Root, Library, find, before, LibraryLaws}
use data_csi.Cli.Program.{
  exits, exit, print_checked, run_check_path, new_check_path_cmd, new_serve_cmd, new_root_cmd,
  pre_run, root_command, main,
}

module _ {H : Host} {G : Group} {Lib : Library H G} (L : LibraryLaws Lib) where
  find-append :
      (name : String) (commands more : List (Command H G)) (c : Command H G)
      → find Lib.name_of name commands ≡ some c
      → find Lib.name_of name (commands ++ more) ≡ some c
  find-append name [] more c e = cc
  find-append name (d ∷ commands) more c e = elim (Bool-cases (Lib.name_of d.use_line == name)) [
    | inl h ↦ rw h (rw h at e)
    | inr h ↦ rw h (find-append name commands more c (rw h at e))
  ]

  find-root_command :
      (version name : String) (c : Command H G)
      → find Lib.name_of name (new_root_cmd Lib version).commands ≡ some c
      → find Lib.name_of name (root_command Lib version).commands ≡ some c
  unfolding root_command
  find-root_command version name c e =
      let root : Root H G = record (new_root_cmd Lib version) { silence_usage = true } in
      let kept = L.commands-setup_logging_handler root "ACE_DATA_CSI_VERBOSITY" in
      find-append name (Lib.setup_logging_handler root "ACE_DATA_CSI_VERBOSITY").commands _ c
        (rw kept e)

  pub find_serve :
      (version : String)
      → find Lib.name_of "serve" (root_command Lib version).commands
        ≡ some (new_serve_cmd Lib version)
  unfolding new_root_cmd new_serve_cmd cut ◌==◌
  find_serve version = find-root_command version "serve" _ (rw L.name_of_lem refl)

  find_check_path :
      (version : String)
      → find Lib.name_of "checkpath" (root_command Lib version).commands ≡ some new_check_path_cmd
  unfolding new_root_cmd new_serve_cmd new_check_path_cmd cut ◌==◌
  find_check_path version =
      find-root_command version "checkpath" _ (rw (L.name_of_lem, L.name_of_lem) refl)

  pre_run_lem : (f : Option (State H G → State H G)) (s : State H G) → pre_run Lib f s ≡ before f s
  unfolding pre_run
  pre_run_lem none s = refl
  pre_run_lem (some f) s = refl

  before-root_command :
      (version : String) (s : State H G)
      → before (root_command Lib version).persistent_pre_run s ≡ s
  unfolding root_command new_root_cmd
  before-root_command version s =
      pre_run_lem _ s ∙ L.before-setup_logging_handler _ "ACE_DATA_CSI_VERBOSITY" s

  -- A command that is found, with arguments that it takes.
  pub main_accepted :
      (version info_version name : String) (args : List String) (s : State H G) (c : Command H G)
      → find Lib.name_of name (root_command Lib (get_version version info_version)).commands
        ≡ some c
      → All (λ arg. is_plain arg ≡ true) args
      → accepts c.args args ≡ true
      → let (how, left) = c.run_e c.defaults args s in
        main Lib version info_version (name ∷ args) s ≡ (exit how, left)
  unfolding main
  main_accepted version info_version name args s c found plain h =
      let v = get_version version info_version in
      rw
        (
          L.execute_accepted (root_command Lib v) name args s c found plain h,
          before-root_command v s,
        )
        refl

  pub main_refused :
      (version info_version name : String) (args : List String) (s : State H G) (c : Command H G)
      → find Lib.name_of name (root_command Lib (get_version version info_version)).commands
        ≡ some c
      → All (λ arg. is_plain arg ≡ true) args
      → accepts c.args args ≡ false
      → main Lib version info_version (name ∷ args) s ≡ (exits 1, s)
  unfolding main exit
  main_refused version info_version name args s c found plain h =
      let v = get_version version info_version in
      let (e, refused) = L.execute_refused (root_command Lib v) name args s c found plain h in
      rw refused refl

  main_path :
      (version info_version path : String) (s : State H G)
      → All (λ arg. is_plain arg ≡ true) (path ∷ [])
      → let (how, left) = print_checked (check_path H path s.host) s in
        main Lib version info_version ("checkpath" ∷ path ∷ []) s ≡ (exit how, left)
  unfolding accepts new_check_path_cmd run_check_path
  main_path version info_version path s plain =
      main_accepted version info_version "checkpath" (path ∷ []) s new_check_path_cmd
        (find_check_path (get_version version info_version)) plain refl

  check_path-mode :
      (path : String) (h : H.State) (mode : FileMode)
      → H.stat path h ≡ ok mode
      → check_path H path h
        ≡ ok (elim mode [ regular ↦ "file" | directory ↦ "directory" | other_mode ↦ "other" ])
  unfolding check_path mode_word
  check_path-mode path h regular p = rw (p, check_path) refl
  check_path-mode path h directory p = rw (p, check_path) refl
  check_path-mode path h other_mode p = rw (p, check_path) refl

  check_path_missing :
      (path : String) (h : H.State) (e : Error)
      → H.stat path h ≡ err e
      → check_path H path h ≡ (if os_is_not_exist e then ok "not_found" else err e)
  unfolding check_path
  check_path_missing path h e p = rw (p, check_path) refl

  -- The command `checkpath` takes one path. Where `os.Stat` finds it, the command prints "file",
  -- "directory" or "other" by its mode, and where `os.IsNotExist` holds of the error, "not_found", and
  -- exits with 0; where `os.Stat` fails for another reason it prints nothing and exits with 1.
  -- With no path, or more than one, it exits with 1 and looks at nothing.
  pub main-check_path :
      (version info_version : String) (args : List String) (s : State H G)
      → All (λ arg. is_plain arg ≡ true) args
      → let ended = main Lib version info_version ("checkpath" ∷ args) s in
        ((path : String) × (args ≡ path ∷ [])
          × (((mode : FileMode) × (H.stat path s.host ≡ ok mode)
                × (ended ≡ (
                  exits 0,
                  record s {
                    printed =
                        s.printed
                        ++ (elim mode [
                          | regular ↦ "file"
                          | directory ↦ "directory"
                          | other_mode ↦ "other"
                        ]
                            ∷ []);
                  },
                )))
              ⊎ ((e : Error) × (H.stat path s.host ≡ err e)
                  × (os_is_not_exist e ≡ true)
                  × (ended ≡ (exits 0, record s { printed = s.printed ++ ("not_found" ∷ []) })))
              ⊎ ((e : Error) × (H.stat path s.host ≡ err e)
                  × (os_is_not_exist e ≡ false)
                  × (ended ≡ (exits 1, s)))))
        ⊎ ((length args ≢ 1) × (ended ≡ (exits 1, s)))
  unfolding accepts
  main-check_path version info_version [] s plain = inr (
    λ e. cc,
    main_refused version info_version "checkpath" [] s new_check_path_cmd
        (find_check_path (get_version version info_version)) plain
        (unfold new_check_path_cmd in refl),
  )
  main-check_path version info_version (path ∷ []) s plain =
      let ran_it = main_path version info_version path s plain in
      inl (
        path,
        refl,
        elim (Result-cases (H.stat path s.host)) [
          | inl (mode, p) ↦ inl (
            mode,
            p,
            ran_it ∙ rw (check_path-mode path s.host mode p) (unfold print_checked exit in refl),
          )
          | inr (e, p) ↦ elim (Bool-cases (os_is_not_exist e)) [
            | inl m ↦ inr (
                inl (
                  e,
                  p,
                  m,
                  ran_it
                      ∙ rw (check_path_missing path s.host e p, m)
                          (unfold print_checked exit in refl),
                ))
            | inr m ↦ inr (
                inr (
                  e,
                  p,
                  m,
                  ran_it
                      ∙ rw (check_path_missing path s.host e p, m)
                          (unfold print_checked exit in refl),
                ))
          ]
        ],
      )
  main-check_path version info_version (path ∷ other ∷ args) s plain = inr (
    λ e. omega (arith, e),
    main_refused version info_version "checkpath" (path ∷ other ∷ args) s new_check_path_cmd
        (find_check_path (get_version version info_version)) plain
        (unfold new_check_path_cmd in ground arith),
  )
