-- ===== src/Tests/Programs.antt =====
-- The program on the machine of the tests, with commands that are found by their first word.
use data_csi.Base.{
  String, ◌≡◌, ◌≢◌, ◌↔◌, ◌⊎◌, refl, true, false, Option, none, some, List, [], ◌∷◌, ok, err, is_ok,
  length, if◌then◌else◌,
}
use data_csi.Errors.{Error, text, os_is_not_exist}
use data_csi.Host.{FileMode, regular, directory, other_mode}
use data_csi.Go.Texts.{cut}
use data_csi.Driver.{Driver}
use data_csi.Driver.Run.{open_listener}
use data_csi.Driver.Serving.{Server, Serving, is_positive}
use data_csi.Cli as Cli
use data_csi.Cli.{ServeFlags, check_path, default_flags, serve, get_version}
use data_csi.Cli.Cobra.{
  accepts, no_args, State, Ran, returns, Command, Root, Library, find, before, LibraryLaws,
}
use data_csi.Cli.Program.{exits, goes_on, main}
use data_csi.Cli.Program.Laws.{main-check_path}
use data_csi.Cli.Program.Serve.{main-serve}
use data_csi.Tests.Machine.{machine, disk_stat}
use data_csi.Tests.Drivers.{disk, parse_size}
use data_csi.Tests.Servings.{counting}

abbrev first_word : String → String
first_word line = (cut " " line).0

-- A command that does nothing.
abbrev idle : String → Command machine counting
idle name = record {
  use_line = name;
  short = "";
  long = "";
  args = no_args;
  hidden = false;
  Flags = Unit {0};
  defaults = tt;
  run_e = λ flags args s. (returns none, s);
}

abbrev wrong_number : Error
wrong_number = text "wrong number of arguments"

abbrev run_command :
    Root machine counting
    → Option (Command machine counting)
    → List String
    → State machine counting
    → Ran machine counting × State machine counting
run_command root none args s = (returns (some (text "unknown command")), s)
run_command root (some c) args s =
    if accepts c.args args
    then c.run_e c.defaults args (before root.persistent_pre_run s)
    else (returns (some wrong_number), s)

abbrev execute :
    Root machine counting
    → List String
    → State machine counting
    → Ran machine counting × State machine counting
execute root [] s = (returns none, s)
execute root (name ∷ args) s = run_command root (find first_word name root.commands) args s

abbrev library : Library machine counting
library = record {
  new_version_cmd = λ version. idle "version";
  new_gendocs_cmd = λ docs. idle "gendocs";
  new_info_cmd = λ docs. idle "info";
  name_of = first_word;
  setup_logging_handler = λ root variable. root;
  execute = execute;
  parse_bytes = parse_size;
  location = λ url. url;
  env_or = λ variable value. value;
  env_duration_or = λ variable value. value;
}

library_laws : LibraryLaws library
library_laws = record {
  name_of_lem = λ line. refl;
  commands-setup_logging_handler = λ root variable. refl;
  before-setup_logging_handler = λ root variable s. refl;
  execute_accepted = λ root name args s c found plain h. rw (found, h) refl;
  execute_refused = λ root name args s c found plain h. (wrong_number, rw (found, h) refl);
}

abbrev begins : State machine counting
begins = record { host = disk; printed = [] }

abbrev path_args : List String
path_args = "/csi" ∷ []

abbrev serve_args : List String
serve_args = []

main-check_path_example :
    let ended = main library "v1" "" ("checkpath" ∷ path_args) begins in
    ((path : String) × (path_args ≡ path ∷ [])
      × (((mode : FileMode) × (disk_stat path disk ≡ ok mode)
            × (ended ≡ (
              exits 0,
              record begins {
                printed =
                    elim mode [ regular ↦ "file" | directory ↦ "directory" | other_mode ↦ "other" ]
                    ∷ [];
              },
            )))
          ⊎ ((e : Error) × (disk_stat path disk ≡ err e)
              × (os_is_not_exist e ≡ true)
              × (ended ≡ (exits 0, record begins { printed = "not_found" ∷ [] })))
          ⊎ ((e : Error) × (disk_stat path disk ≡ err e)
              × (os_is_not_exist e ≡ false)
              × (ended ≡ (exits 1, begins)))))
    ⊎ ((length path_args ≢ 1) × (ended ≡ (exits 1, begins)))
main-check_path_example = main-check_path library_laws "v1" "" path_args begins (refl, tt)

main-serve_example :
    let flags = default_flags library.env_or library.env_duration_or in
    let ended = main library "v1" "" ("serve" ∷ serve_args) begins in
    ((serve_args ≡ [])
      × (((srv : Server machine) × (g : Serving machine counting) × (ended.0 ≡ goes_on srv g)) ↔ (
          (d : Driver machine) × (serve machine parse_size library.location
              (get_version "v1" "")
              flags
            ≡ Cli.runs d)
          × (is_ok (open_listener d disk).0 ≡ true)
          × (is_positive flags.prune_period ≡ true))))
    ⊎ ((serve_args ≢ []) × (ended ≡ (exits 1, begins)))
main-serve_example = main-serve library_laws "v1" "" serve_args begins tt
