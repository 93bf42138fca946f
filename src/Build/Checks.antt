-- ===== src/Build/Checks.antt =====
-- .dagger/test.go, .dagger/security.go and `Chart` of .dagger/helm.go: tests and scans.

use data_csi.Base.{String, [], ◌∷◌, Option, Result}
use data_csi.Errors.{Error}
use data_csi.Go.Filepath.{dir}
use data_csi.Build.Sdk.{Sdk, ◌▸◌}
use data_csi.Build.Project.{Csi, go_vuln_check, image_grype, image_acedt, image_syft}
use data_csi.Build.Release.{chart_path}

module _ (S : Sdk) where
  -- `Test`, the struct
  pub record Test : Type 0 where
    pub source : S.Directory
    pub netrc : Option S.Secret
    pub registry_config : S.RegistryConfig

  -- `Test`, the function
  unfoldable pub test : Csi S → Test
  test c = record { source = c.source; netrc = c.netrc; registry_config = c.registry_config }

  -- `Unit`
  unfoldable pub unit_tests : Test → Result Error String
  unit_tests t =
      S.go_source t.source ▸ S.go_container ▸ S.with_exec ("go" ∷ "test" ∷ "./..." ∷ []) ▸ S.stdout

  -- `Chart`
  unfoldable pub lint_chart : Test → Result Error String
  lint_chart t = S.helm ▸ S.helm_lint (S.directory_in (dir chart_path) t.source) ▸ S.stdout

  -- `VulnCheck`
  unfoldable pub vuln_check : Csi S → Result Error String
  vuln_check c =
      S.go_source c.source
      ▸ S.without_cgo
      ▸ S.go_exec ("go" ∷ "install" ∷ go_vuln_check ∷ [])
      ▸ S.with_exec ("govulncheck" ∷ "./..." ∷ [])
      ▸ S.stdout

  -- The container of `GrypeDB`, before it downloads.
  unfoldable pub grype_container : S.Container
  grype_container =
      S.container ▸ S.from image_grype ▸ S.with_env_variable "GRYPE_DB_CACHE_DIR" "/cache/grype"

  -- `GrypeDB`
  unfoldable pub grype_db : S.Directory
  grype_db =
      grype_container ▸ S.with_exec ("/grype" ∷ "db" ∷ "update" ∷ []) ▸ S.directory "/cache/grype"

  -- The container of `Scan`, before anything runs in it.
  unfoldable pub scan_container : Csi S → S.File → S.Container
  scan_container c sources =
      S.container
      ▸ S.with_mounted_secret "/root/.docker/config.json" (S.registry_secret c.registry_config)
      ▸ S.from "cgr.dev/chainguard/bash"
      ▸ S.with_file "/usr/local/bin/ace-dt"
          (S.container ▸ S.from image_acedt ▸ S.file "/usr/local/bin/ace-dt")
      ▸ S.with_file "/usr/local/bin/grype" (S.container ▸ S.from image_grype ▸ S.file "/grype")
      ▸ S.with_file "/usr/local/bin/syft" (S.container ▸ S.from image_syft ▸ S.file "/syft")
      ▸ S.with_file "artifacts.txt" sources
      ▸ S.with_directory "/cache/grype" grype_db
      ▸ S.with_env_variable "GRYPE_DB_CACHE_DIR" "/cache/grype"
      ▸ S.with_user "0"

  -- `Scan`
  unfoldable pub scan : Csi S → S.File → Result Error String
  scan c sources =
      scan_container c sources
      ▸ S.with_exec ("grype" ∷ "db" ∷ "update" ∷ [])
      ▸ S.with_exec (
          "ace-dt" ∷ "security" ∷ "scan" ∷ "-o=table" ∷ "--source-file" ∷ "artifacts.txt"
          ∷ "--push-reports" ∷ [])
      ▸ S.stdout
