-- ===== src/Cli/Cobra.antt =====
-- What the program takes from libraries to make commands: `github.com/spf13/cobra`, and the package
-- `config`, the commands, the documentation and the set-up of logging of `act3-ai/go-common`.
use Prim.Native.Char.{code}
use data_csi.Base.{
  not, String, ℕ, List, [], ◌∷◌, Bool, true, false, Option, none, some, Result, ◌≡◌, All, ◌==◌,
  ◌=ℕ◌, length, if◌then◌else◌,
}
use data_csi.Base.Int.{ℤ}
use data_csi.Errors.{Error}
use data_csi.Go.Texts.{cut}
use data_csi.Host.{Host}
use data_csi.Driver.Group.{Group}
use data_csi.Driver.Serving.{Server, Serving}

-- `cobra.PositionalArgs`
pub data PositionalArgs : Type 0 where
  no_args : PositionalArgs
  exact_args : ℕ → PositionalArgs

-- Whether the arguments of a command are such.
unfoldable pub accepts : PositionalArgs → List String → Bool
accepts no_args args = length args =ℕ 0
accepts (exact_args n) args = length args =ℕ n

module _ (H : Host) (G : Group) where
  -- The machine, and the lines that were printed on the standard output.
  pub record State : Type 0 where
    pub host : H.State
    pub printed : List String

  -- How the function of a command ends: it returns, it panics, or it serves calls.
  pub data Ran : Type 0 where
    returns : Option Error → Ran
    panics : String → Ran
    serves : Server H → Serving H G → Ran

  -- `cobra.Command` without subcommands, with the fields that the code sets. The flags are those of
  -- the function, with the values that they have where none are given.
  pub record Command : Type 1 where
    pub use_line : String
    pub short : String
    pub long : String
    pub args : PositionalArgs
    pub hidden : Bool
    pub Flags : Type 0
    pub defaults : Flags
    pub run_e : Flags → List String → State → Ran × State

  -- The root command.
  pub record Root : Type 1 where
    pub use_line : String
    pub short : String
    pub long : String
    pub silence_usage : Bool
    pub commands : List Command
    pub persistent_pre_run : Option (State → State)

-- `embedutil.LoadMarkdown`, `embedutil.NewCategory` and `embedutil.Documentation`. The root command is
-- held by reference, for which its name stands.
pub record Document : Type 0 where
  pub key : String
  pub title : String
  pub file : String

pub record Category : Type 0 where
  pub key : String
  pub title : String
  pub program : String
  pub section : ℕ
  pub documents : List Document

pub record Documentation : Type 0 where
  pub title : String
  pub command : String
  pub categories : List Category

-- What the program calls and does not implement.
pub record Library (H : Host) (G : Group) : Type 1 where
  -- `commands.NewVersionCmd(info)` and the others
  pub new_version_cmd : String → Command H G
  pub new_gendocs_cmd : Documentation → Command H G
  pub new_info_cmd : Documentation → Command H G
  -- `cmd.Name()`
  pub name_of : String → String
  -- `runner.SetupLoggingHandler(root, variable)`
  pub setup_logging_handler : Root H G → String → Root H G
  -- `root.Execute()` with the arguments of the program
  pub execute : Root H G → List String → State H G → Ran H G × State H G
  -- `humanize.ParseBytes`, the location of a URL, and `config.EnvOr` and `config.EnvDurationOr`
  pub parse_bytes : String → Result Error ℕ
  pub location : String → H.Location
  pub env_or : String → String → String
  pub env_duration_or : String → ℤ → ℤ

-- Whether an argument is no flag.
abbrev pub is_plain : String → Bool
is_plain String.[] = true
is_plain (String.◌∷◌ c s) = not (code c =ℕ b'-')

module _ {H : Host} {G : Group} where
  -- The function of the root that runs before any command.
  abbrev pub before : Option (State H G → State H G) → State H G → State H G
  before none s = s
  before (some f) s = f s

-- The first command of a name.
abbrev pub find :
    {H : Host} {G : Group} → (String → String) → String → List (Command H G) → Option (Command H G)
find name_of name [] = none
find name_of name (c ∷ commands) =
    if name_of c.use_line == name then some c else find name_of name commands

module _ {H : Host} {G : Group} (Lib : Library H G) where
  -- The documentation: "Name returns the command's name: the first word in the use line"; "Execute
  -- uses the args and runs through the command tree finding appropriate matches for commands", of
  -- which it checks the arguments, runs what is to run before, and then the function. The set-up of
  -- logging adds no command, and what it runs before a command does not print or touch the machine.
  pub record LibraryLaws : Type 1 where
    pub name_of_lem : (line : String) → Lib.name_of line ≡ (cut " " line).0
    pub commands-setup_logging_handler :
        (root : Root H G) (variable : String)
        → (Lib.setup_logging_handler root variable).commands ≡ root.commands
    pub before-setup_logging_handler :
        (root : Root H G) (variable : String) (s : State H G)
        → before (Lib.setup_logging_handler root variable).persistent_pre_run s
          ≡ before root.persistent_pre_run s
    pub execute_accepted :
        (root : Root H G) (name : String) (args : List String) (s : State H G) (c : Command H G)
        → find Lib.name_of name root.commands ≡ some c
        → All (λ arg. is_plain arg ≡ true) args
        → accepts c.args args ≡ true
        → Lib.execute root (name ∷ args) s
          ≡ c.run_e c.defaults args (before root.persistent_pre_run s)
    pub execute_refused :
        (root : Root H G) (name : String) (args : List String) (s : State H G) (c : Command H G)
        → find Lib.name_of name root.commands ≡ some c
        → All (λ arg. is_plain arg ≡ true) args
        → accepts c.args args ≡ false
        → (e : Error) × (Lib.execute root (name ∷ args) s ≡ (returns (some e), s))
