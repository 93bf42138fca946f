-- ===== src/Build/Lint.antt =====
-- .dagger/lint.go: the linters, which run in a pool.
pub mod Laws
use data_csi.Base.{String, List, [], ◌∷◌, map, Option, none, some, Result, ok, err}
use data_csi.Errors.{Error, Status, message}
use data_csi.Go.Strings.{join_with}
use data_csi.Build.Sdk.{Sdk, ◌▸◌}
use data_csi.Build.Project.{Csi}

-- A function of a pool that returns a result and an error: the result counts where there is no error.
abbrev pub task : {A : Type 0} → A × Option Error → Result Error A
task (a, none) = ok a
task (a, some e) = err e

module _ (S : Sdk) where
  -- `Lint`, the struct
  pub record Lint : Type 0 where
    pub source : S.Directory

  -- `Lint`, the function
  unfoldable pub lint : Csi S → Lint
  lint c = record { source = c.source }

  -- `Yamllint`
  unfoldable pub yamllint : S.Directory → Result Error String
  yamllint src =
      S.container
      ▸ S.from "docker.io/cytopia/yamllint:1"
      ▸ S.with_workdir "/src"
      ▸ S.with_directory "/src" src
      ▸ S.with_exec ("yamllint" ∷ "." ∷ [])
      ▸ S.stdout

  -- `Markdownlint`
  unfoldable pub markdownlint : S.Directory → Result Error String
  markdownlint src =
      S.container
      ▸ S.from "docker.io/davidanson/markdownlint-cli2:v0.14.0"
      ▸ S.with_workdir "/src"
      ▸ S.with_directory "/src" src
      ▸ S.with_exec ("markdownlint-cli2" ∷ "." ∷ [])
      ▸ S.stdout

  -- `Go`, which `All` repeats
  unfoldable pub go_lint : Lint → Result Error String
  go_lint l = S.golangci_run "5m" l.source ▸ S.stdout

  -- What the functions of the pool of `Shellcheck` return.
  unfoldable pub checks : S.Directory → List String → List (Result Error (Unit {0}))
  checks src filenames = map (λ name. S.shellcheck (S.file_in name src)) filenames

-- How a gRPC status is written, which `err.Error()` of one gives, is a parameter.
module _ (S : Sdk) (render : Status → String) where
  -- `Shellcheck` with the error of the pool: it is returned, and its text as the result.
  unfoldable pub reported : Option Error → String × Option Error
  reported none = ("", none)
  reported (some e) = (message render e, some e)

  -- `Shellcheck` with what `Entries` returns
  unfoldable pub checked : S.Directory → Result Error (List String) → String × Option Error
  checked src (err e) = ("", some e)
  checked src (ok filenames) = reported (S.wait (checks S src filenames)).1

  -- `Shellcheck`
  unfoldable pub shellcheck : S.Directory → String × Option Error
  shellcheck src = checked src (S.entries src)

  -- What the functions of the pool of `All` return.
  unfoldable pub linters : Lint S → S.Directory → List (Result Error String)
  linters l src =
      yamllint S l.source
      ∷ markdownlint S l.source
      ∷ go_lint S l
      ∷ task (shellcheck (S.directory_in "bin" src))
      ∷ []

  -- `All`
  unfoldable pub lint_all : Lint S → S.Directory → String × Option Error
  lint_all l src =
      let (result, failed) = S.wait (linters l src) in (join_with "\n=====\n" result, failed)
