-- ===== src/Build/Project.antt =====
-- .dagger/main.go: the module that all pipelines are functions of, and the credentials given to it.
use data_csi.Base.{String, Option, none, some}
use data_csi.Build.Sdk.{Sdk}

-- The repository, the images that pipelines start from, and a tool of Go.
abbrev pub git_repo : String
git_repo = "act3-ai/data-csi"

abbrev pub image_git_cliff : String
image_git_cliff = "docker.io/orhunp/git-cliff:2.8.0"

abbrev pub image_distroless_debian : String
image_distroless_debian = "gcr.io/distroless/static-debian12:debug"

abbrev pub image_grype : String
image_grype = "anchore/grype:latest"

abbrev pub image_syft : String
image_syft = "anchore/syft:latest"

abbrev pub image_acedt : String
image_acedt = "ghcr.io/act3-ai/data-tool:v1.15.33"

abbrev pub image_go_releaser : String
image_go_releaser = "ghcr.io/goreleaser/goreleaser:v2.8.2"

abbrev pub go_vuln_check : String
go_vuln_check = "golang.org/x/vuln/cmd/govulncheck@latest"

module _ (S : Sdk) where
  -- `Csi`
  pub record Csi : Type 0 where
    pub source : S.Directory
    pub registry_config : S.RegistryConfig
    pub netrc : Option S.Secret

module _ {S : Sdk} where
  -- `New`
  unfoldable pub new_csi : S.Directory → Csi S
  new_csi src = record { source = src; registry_config = S.registry_config; netrc = none }

  -- `WithRegistryAuth`
  unfoldable pub with_registry_auth : String → String → S.Secret → Csi S → Csi S
  with_registry_auth address username secret c = record c {
    registry_config = S.add_registry_auth address username secret c.registry_config;
  }

  -- `WithoutRegistryAuth`
  unfoldable pub without_registry_auth : String → Csi S → Csi S
  without_registry_auth address c = record c {
    registry_config = S.remove_registry_auth address c.registry_config;
  }

  -- `WithNetrc`
  unfoldable pub with_netrc : S.Secret → Csi S → Csi S
  with_netrc netrc c = record c { netrc = some netrc }
