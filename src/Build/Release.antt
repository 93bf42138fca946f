-- ===== src/Build/Release.antt =====
-- .dagger/release.go and the charts of .dagger/helm.go: what is prepared for a release, and what is
-- published.
pub mod Laws
pub mod Paths
pub mod Published
pub mod Notes
use data_csi.Base.{
  String, ◌<>◌, List, [], ◌∷◌, Bool, true, false, Option, none, some, Result, ok, err,
}
use data_csi.Errors.{Error}
use data_csi.Go.Filepath.{join, dir}
use data_csi.Build.Project.{git_repo, image_git_cliff}
use data_csi.Build.{bumped_version, version_file, prepared_notes_path, published_notes_path}
use data_csi.Build.Sdk.{Sdk, ◌▸◌, ◌>>=◌, map_error}
use data_csi.Build.Releaser.{go_releaser}
use data_csi.Build.Release.Notes.{with_tables}

-- How a function of the pipelines stops early: it returns an error, or a slice is out of range.
pub data Stop : Type 0 where
  fails : Error → Stop
  panics : String → Stop

-- `chartPath` and `chartValuesPath`
unfoldable pub chart_path : String
chart_path = join ("charts" ∷ "csi-bottle" ∷ "Chart.yaml" ∷ [])

unfoldable pub chart_values_path : String
chart_values_path = join ("charts" ∷ "csi-bottle" ∷ "values.yaml" ∷ [])

-- `strconv.FormatBool`
unfoldable pub format_bool : Bool → String
format_bool true = "true"
format_bool false = "false"

module _ (S : Sdk) where
  -- `Release`, the struct
  pub record Release : Type 0 where
    pub source : S.Directory
    pub token : Option S.Secret

  -- `Release`, the function
  unfoldable pub release : S.Directory → Option S.Secret → Release
  release src token = record { source = src; token = token }

  -- The function that `gitCliffContainer` gives to `With`.
  unfoldable pub with_token : Option S.Secret → S.Container → S.Container
  with_token none c = c
  with_token (some token) c =
      c ▸ S.with_secret_variable "GITHUB_TOKEN" token ▸ S.with_env_variable "GITHUB_REPO" git_repo

  -- `gitCliffContainer`
  unfoldable pub git_cliff_container : Release → S.Container
  git_cliff_container r =
      S.container
      ▸ S.from image_git_cliff
      ▸ with_token r.token
      ▸ S.with_mounted_directory "/app" r.source

  -- `Changelog`
  unfoldable pub changelog : Release → S.File
  changelog r =
      git_cliff_container r
      ▸ S.with_exec (
          "git-cliff" ∷ "--bump" ∷ "--strip=footer" ∷ "--unreleased" ∷ "--prepend"
          ∷ "/app/CHANGELOG.md" ∷ [])
      ▸ S.file "/app/CHANGELOG.md"

  -- The container that `Version` asks.
  unfoldable pub version_container : Release → S.Container
  version_container r = git_cliff_container r ▸ S.with_exec ("git-cliff" ∷ "--bumped-version" ∷ [])

  -- `Version`
  unfoldable pub version : Release → Result Stop String
  version r = do
    printed ← map_error fails (S.stdout (version_container r))
    map_error panics (bumped_version printed)

  -- `Notes`
  unfoldable pub notes : Release → String → Result Error String
  notes r version = do
    written ← S.stdout (
        git_cliff_container r
        ▸ S.with_exec ("git-cliff" ∷ "--bump" ∷ "--unreleased" ∷ "--strip=all" ∷ []))
    ok (with_tables version written)

  -- A chain of `setChartVersion`: `yq` changes a file of the sources.
  unfoldable pub yq_updated : S.Directory → String → String → String → S.File
  yq_updated src version expression path =
      S.wolfi ("yq" ∷ [])
      ▸ S.with_mounted_directory "/src" src
      ▸ S.with_workdir "/src"
      ▸ S.with_env_variable "version" version
      ▸ S.with_exec ("yq" ∷ "e" ∷ expression ∷ "-i" ∷ path ∷ [])
      ▸ S.file path

  -- `setChartVersion`
  unfoldable pub set_chart_version : Release → String → S.File × S.File
  set_chart_version r version = (
    yq_updated r.source version "(.version = env(version)) | (.appVersion = env(version))"
        chart_path,
    yq_updated r.source version ".image.tag = \"v\" + env(version)" chart_values_path,
  )

  -- The directory that `Prepare` returns.
  unfoldable pub prepared : S.File → String → String → S.File × S.File → S.Directory
  prepared changelog version notes (chart_file, values_file) =
      S.new_directory
      ▸ S.add_file "CHANGELOG.md" changelog
      ▸ S.add_new_file "VERSION" (version_file version)
      ▸ S.add_new_file (prepared_notes_path version) notes
      ▸ S.add_file chart_path chart_file
      ▸ S.add_file chart_values_path values_file

  -- `Prepare`
  unfoldable pub prepare : Release → Result Stop S.Directory
  prepare r = do
    version ← version r
    notes ← map_error fails (notes r version)
    ok (prepared (changelog r) version notes (set_chart_version r version))

  -- `PublishChart`
  unfoldable pub publish_chart :
      Release → String → String → String → S.Secret → Result Error (Unit {0})
  publish_chart r oci_repo address username secret =
      S.helm
      ▸ S.helm_with_registry_auth address username secret
      ▸ S.helm_chart (S.directory_in (dir chart_path) r.source)
      ▸ S.helm_package true
      ▸ S.publish_package oci_repo

  module _ (lookup_env : String → Option String) where
    -- The container of `Publish`, before goreleaser runs in it.
    unfoldable pub publish_container :
        S.Directory → S.Secret → S.Secret → String → String → Bool → S.Container
    publish_container src token ssh_private_key author email latest =
        go_releaser S lookup_env src
        ▸ S.with_secret_variable "GITHUB_TOKEN" token
        ▸ S.with_secret_variable "SSH_PRIVATE_KEY" ssh_private_key
        ▸ S.with_env_variable "RELEASE_AUTHOR" author
        ▸ S.with_env_variable "RELEASE_AUTHOR_EMAIL" email
        ▸ S.with_env_variable "RELEASE_LATEST" (format_bool latest)

    -- `Publish` of a release
    unfoldable pub publish :
        S.Directory → S.Secret → S.Secret → String → String → Bool → Result Error String
    publish src token ssh_private_key author email latest = do
      contents ← S.contents (S.file_in "VERSION" src)
      S.stdout (
          publish_container src token ssh_private_key author email latest
          ▸ S.with_exec (
              "goreleaser"
              ∷ "release"
              ∷ "--fail-fast"
              ∷ "--release-notes"
              ∷ published_notes_path contents
              ∷ []))
