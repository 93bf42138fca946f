-- ===== src/Build/Releaser.antt =====
-- .dagger/build.go and `GoReleaser` of .dagger/release.go: the container that goreleaser runs in, and
-- what is built with it.
pub mod Laws
use data_csi.Base.{String, ◌<>◌, List, [], ◌∷◌, Bool, true, false, Option, none, some}
use data_csi.Build.{binary_name, build_target}
use data_csi.Build.Sdk.{Sdk, ◌▸◌}
use data_csi.Build.Project.{Csi, image_go_releaser}

-- `fmt.Sprintf("--snapshot=%v", snapshot)`
unfoldable pub snapshot_flag : Bool → String
snapshot_flag true = "--snapshot=true"
snapshot_flag false = "--snapshot=false"

-- What `build` runs.
unfoldable pub build_command : String → Bool → List String
build_command platform snapshot =
    "goreleaser"
    ∷ "build"
    ∷ "--auto-snapshot"
    ∷ "--timeout=10m"
    ∷ "--single-target"
    ∷ "--output"
    ∷ binary_name platform
    ∷ snapshot_flag snapshot
    ∷ []

-- `if ok { ctr = ctr.WithEnvVariable(name, value) }`, after a look-up
unfoldable pub inherit : (S : Sdk) → String → Option String → S.Container → S.Container
inherit S name none ctr = ctr
inherit S name (some value) ctr = S.with_env_variable name value ctr

-- The environment of the host, `os.LookupEnv`.
module _ (S : Sdk) (lookup_env : String → Option String) where
  -- `GoReleaser`
  unfoldable pub go_releaser : S.Directory → S.Container
  go_releaser src =
      S.container
      ▸ S.from image_go_releaser
      ▸ S.with_mounted_cache "csi-bottle-cache" (S.cache_volume "csi-bottle-cache")
      ▸ S.with_mounted_directory "/work/src" src
      ▸ S.with_workdir "/work/src"
      ▸ inherit S "GOMAXPROCS" (lookup_env "GOMAXPROCS")
      ▸ inherit S "GOMEMLIMIT" (lookup_env "GOMEMLIMIT")

  -- The container of `build`, before goreleaser runs in it.
  unfoldable pub build_container : S.Directory → String → S.Container
  build_container src platform =
      let (os, arch) = build_target platform in
      go_releaser src ▸ S.with_env_variable "GOOS" os ▸ S.with_env_variable "GOARCH" arch

  -- `build`
  unfoldable pub build : S.Directory → String → Bool → S.File
  build src platform snapshot =
      build_container src platform
      ▸ S.with_exec (build_command platform snapshot)
      ▸ S.file (binary_name platform)

  -- `Build`
  unfoldable pub csi_build : Csi S → String → Bool → S.File
  csi_build c platform snapshot = build c.source platform snapshot

  -- `BuildPlatforms`
  unfoldable pub build_platforms : Csi S → Bool → S.Directory
  build_platforms c snapshot =
      go_releaser c.source
      ▸ S.with_exec (
          "goreleaser"
          ∷ "build"
          ∷ "--clean"
          ∷ "--auto-snapshot"
          ∷ "--timeout=10m"
          ∷ snapshot_flag snapshot
          ∷ [])
      ▸ S.directory "dist"

  -- `CLIDocs` of .dagger/docs.go
  unfoldable pub cli_docs : Csi S → S.Directory
  cli_docs c =
      S.go_source c.source
      ▸ S.go_container
      ▸ S.with_file "/usr/local/bin/csi-bottle" (csi_build c "linux/amd64" false)
      ▸ S.with_exec ("csi-bottle" ∷ "gendocs" ∷ "md" ∷ "--only-commands" ∷ "docs/cli" ∷ [])
      ▸ S.directory "docs/cli"
