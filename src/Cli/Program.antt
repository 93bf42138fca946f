-- ===== src/Cli/Program.antt =====
-- cmd/csi-bottle/main.go, cli/root.go, the commands of cli/serve.go and cli/checkpath.go, and
-- embedded.go: the program from its arguments to its exit. `github.com/spf13/cobra`, the commands and
-- the set-up of logging of `act3-ai/go-common` are parameters. What is logged is left out.
pub mod Laws
pub mod Serve
use data_csi.Base.{
  String, ◌<>◌, ℕ, List, [], ◌∷◌, ◌++◌, Bool, true, false, Option, none, some, Result, ok, err,
  ◌==◌, ◌=ℕ◌, length, if◌then◌else◌,
}
use data_csi.Errors.{Error}
use data_csi.Host.{Host}
use data_csi.Driver.Group.{Group}
use data_csi.Driver.Serving as Serving
use data_csi.Driver.Serving.{Server, Serving, Begun, begin}
use data_csi.Base.Int.{ℤ}
use data_csi.Cli as Cli
use data_csi.Cli.Cobra.{
  exact_args, no_args, State, Ran, returns, panics, serves, Command, Root, Document, Category,
  Documentation, Library,
}
use data_csi.Cli.{ServeFlags, Served, check_path, default_flags, serve, get_version}

-- How the program ends: with an exit code, or by a panic; or that it serves.
pub data Exit (H : Host) (G : Group) : Type 0 where
  exits : ℕ → Exit H G
  crashes : String → Exit H G
  goes_on : Server H → Serving H G → Exit H G

module _ {H : Host} {G : Group} where
  -- `if err := root.Execute(); err != nil { os.Exit(1) }`
  unfoldable pub exit : Ran H G → Exit H G
  exit (returns none) = exits 0
  exit (returns (some e)) = exits 1
  exit (panics text) = crashes text
  exit (serves srv s) = goes_on srv s

  -- How `RunE` of `serve` ends, by how `Run` goes on.
  unfoldable pub ran : Begun H G × H.State → List String → Ran H G × State H G
  ran (Serving.returns e, h) printed = (returns (some e), record { host = h; printed = printed })
  ran (Serving.panics text, h) printed = (panics text, record { host = h; printed = printed })
  ran (Serving.serves srv s, h) printed = (serves srv s, record { host = h; printed = printed })

  -- `RunE` of `serve`, after its flags were looked at.
  unfoldable pub run_served : Served H → State H G → Ran H G × State H G
  run_served (Cli.refused e) s = (returns (some e), s)
  run_served (Cli.panics text) s = (panics text, s)
  run_served (Cli.runs d) s = ran (begin G d s.host) s.printed

  -- `RunE` of `checkpath`, after the path was looked at.
  unfoldable pub print_checked : Result Error String → State H G → Ran H G × State H G
  print_checked (err e) s = (returns (some e), s)
  print_checked (ok word) s = (returns none, record s { printed = s.printed ++ (word ∷ []) })

  -- `RunE` of `checkpath`
  unfoldable pub run_check_path : List String → State H G → Ran H G × State H G
  run_check_path [] s = (panics "index out of range [0] with length 0", s)
  run_check_path (path ∷ _) s = print_checked (check_path H path s.host) s

  -- `NewCheckPathCmd`
  unfoldable pub new_check_path_cmd : Command H G
  new_check_path_cmd = record {
    use_line = "checkpath path";
    short = "Checks that a path exists for testing purposes.";
    long =
        "The command is to run to check a given path by csi-sanity. \nIt prints 'file', 'directory', 'not_found', or 'other' on stdout.";
    args = exact_args 1;
    hidden = true;
    Flags = Unit {0};
    defaults = tt;
    run_e = λ flags. run_check_path;
  }

  module _ (Lib : Library H G) where
    -- `NewServeCmd`
    unfoldable pub new_serve_cmd : String → Command H G
    new_serve_cmd version = record {
      use_line = "serve";
      short = "Start the CSI driver server";
      long = "Listens on a UNIX socket or TCP socket for GRPC method calls from Kubelet.";
      args = no_args;
      hidden = false;
      Flags = ServeFlags;
      defaults = default_flags Lib.env_or Lib.env_duration_or;
      run_e = λ flags args. run_served (serve H Lib.parse_bytes Lib.location version flags);
    }

    -- `NewRootCmd`
    unfoldable pub new_root_cmd : String → Root H G
    new_root_cmd version = record {
      use_line = "csi-bottle";
      short = "Kubernetes CSI driver for creating volumes from data bottles";
      long =
          "The driver implements the Identity and Node services for the container storage interface (CSI).\n\tThis CSI driver s used to populate volumes from read-only data.";
      silence_usage = false;
      commands = new_serve_cmd version ∷ new_check_path_cmd ∷ [];
      persistent_pre_run = none;
    }

    -- `Embedded`
    unfoldable pub embedded : Root H G → Documentation
    embedded root = record {
      title = "CSI Driver";
      command = Lib.name_of root.use_line;
      categories =
          record {
            key = "docs";
            title = "General Documentation";
            program = Lib.name_of root.use_line;
            section = 1;
            documents = record { key = "readme"; title = "README"; file = "README.md" } ∷ [];
          }
          ∷ [];
    }

    -- The function that `main` puts around the one that was there.
    unfoldable pub pre_run : Option (State H G → State H G) → State H G → State H G
    pre_run none s = s
    pre_run (some persistent_pre_run) s = persistent_pre_run s

    -- The root command as `main` executes it.
    unfoldable pub root_command : String → Root H G
    root_command version =
        let root =
          Lib.setup_logging_handler (record (new_root_cmd version) { silence_usage = true })
            "ACE_DATA_CSI_VERBOSITY" in
        let embed_docs = embedded root in
        record root {
          commands =
              root.commands
              ++ (Lib.new_version_cmd version
                  ∷ Lib.new_gendocs_cmd embed_docs
                  ∷ Lib.new_info_cmd embed_docs
                  ∷ []);
          persistent_pre_run = some (pre_run root.persistent_pre_run);
        }

    -- `main`, with the version that the build sets and that of the build information.
    unfoldable pub main : String → String → List String → State H G → Exit H G × State H G
    main version info_version args s =
        let (how, left) = Lib.execute (root_command (get_version version info_version)) args s in
        (exit how, left)
