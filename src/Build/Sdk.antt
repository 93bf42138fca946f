-- ===== src/Build/Sdk.antt =====
-- What the pipelines under .dagger call and do not implement: the SDK of dagger with the modules that
-- are written for it (go, golangci-lint, helm, registry-config, shellcheck, wolfi), the pools of
-- `github.com/sourcegraph/conc` and `registry.ParseReference` of oras. A value of the SDK describes
-- a container, a directory or a file; asking for a text of it runs what it describes. In a session of
-- dagger equal questions have equal answers, so a question is a function of what it is asked of.
pub mod Laws
use data_csi.Base.{String, ◌≡◌, Bool, List, Option, Result, ok, err}
use data_csi.Errors.{Error}

infixl 4 ◌▸◌
-- Go's chain `x.f(a)`, with the receiver last in our functions.
abbrev pub ◌▸◌ : {A B : Type 0} → A → (A → B) → B
x ▸ f = f x

module _ {E A B : Type 0} where
  infixl 5 ◌>>=◌
  abbrev pub ◌>>=◌ : Result E A → (A → Result E B) → Result E B
  ◌>>=◌ (ok a) f = f a
  ◌>>=◌ (err e) f = err e

-- `if err != nil { return nil, f(err) }`
abbrev pub map_error : {E F A : Type 0} → (E → F) → Result E A → Result F A
map_error f (ok a) = ok a
map_error f (err e) = err (f e)

-- `registry.Reference`, with the fields that the code reads.
pub record Reference : Type 0 where
  pub registry : String
  pub repository : String

pub record Kinds : Type 1 where
  pub Container : Type 0
  pub Directory : Type 0
  pub File : Type 0
  pub Secret : Type 0
  pub CacheVolume : Type 0
  pub RegistryConfig : Type 0
  pub GoSource : Type 0
  pub Helm : Type 0
  pub HelmChart : Type 0
  pub HelmPackage : Type 0

pub record Sdk : Type 1 where
  pub kinds : Kinds
  pub open kinds use *
  -- `dag.Container()`, without and with the option `Platform`
  pub container : Container
  pub container_on : String → Container
  -- `Container.With...`
  pub from : String → Container → Container
  pub with_file : String → File → Container → Container
  pub with_directory : String → Directory → Container → Container
  pub with_mounted_directory : String → Directory → Container → Container
  pub with_mounted_cache : String → CacheVolume → Container → Container
  pub with_mounted_secret : String → Secret → Container → Container
  pub with_env_variable : String → String → Container → Container
  pub with_secret_variable : String → Secret → Container → Container
  pub with_workdir : String → Container → Container
  pub with_user : String → Container → Container
  pub with_label : String → String → Container → Container
  pub with_entrypoint : List String → Container → Container
  pub with_exec : List String → Container → Container
  -- `Container.File(path)` and others that ask for a part
  pub file : String → Container → File
  pub directory : String → Container → Directory
  pub env_variable : String → Container → String
  pub label : String → Container → String
  pub entrypoint : Container → List String
  pub workdir : Container → String
  pub platform : Container → String
  -- `Container.Stdout(ctx)` and `Container.Publish(ctx, address, PlatformVariants)`
  pub stdout : Container → Result Error String
  pub publish : String → List Container → Container → Result Error String
  -- `dag.Directory()`, its `With...` and its parts
  pub new_directory : Directory
  pub add_file : String → File → Directory → Directory
  pub add_new_file : String → String → Directory → Directory
  pub file_in : String → Directory → File
  pub directory_in : String → Directory → Directory
  pub entries : Directory → Result Error (List String)
  -- `File.Contents(ctx)`
  pub contents : File → Result Error String
  -- `dag.CacheVolume(key)`
  pub cache_volume : String → CacheVolume
  -- `dag.RegistryConfig()`
  pub registry_config : RegistryConfig
  pub add_registry_auth : String → String → Secret → RegistryConfig → RegistryConfig
  pub remove_registry_auth : String → RegistryConfig → RegistryConfig
  pub registry_secret : RegistryConfig → Secret
  -- `dag.Go().WithSource(src)`, `WithCgoDisabled`, `Exec` and `Container`
  pub go_source : Directory → GoSource
  pub without_cgo : GoSource → GoSource
  pub go_exec : List String → GoSource → Container
  pub go_container : GoSource → Container
  -- `dag.GolangciLint().Run(src, Timeout)`
  pub golangci_run : String → Directory → Container
  -- `dag.Helm()`
  pub helm : Helm
  pub helm_with_registry_auth : String → String → Secret → Helm → Helm
  pub helm_lint : Directory → Helm → Container
  pub helm_chart : Directory → Helm → HelmChart
  pub helm_package : Bool → HelmChart → HelmPackage
  pub publish_package : String → HelmPackage → Result Error (Unit {0})
  -- `dag.Shellcheck().Check(file).Assert(ctx)`
  pub shellcheck : File → Result Error (Unit {0})
  -- `dag.Wolfi().Container(Packages)`
  pub wolfi : List String → Container
  -- `p.Wait()` of a pool with results, given what its functions return: the results and the error.
  pub wait : {A : Type 0} → List (Result Error A) → List A × Option Error
  -- `registry.ParseReference(address)`
  pub parse_reference : String → Result Error Reference
