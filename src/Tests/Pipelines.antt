-- ===== src/Tests/Pipelines.antt =====
-- The pipelines on the small SDK.
use mathlib.Core.List.{Perm}
use data_csi.Base.{
  String, ◌<>◌, ◌≡◌, ◌↔◌, ◌⊎◌, refl, true, false, List, [], ◌∷◌, map, Option, none, some, ok, err,
  is_ok, ◌==◌, if◌then◌else◌,
}
use data_csi.Errors.{Error, Status, wrap}
use data_csi.Go.Strings.{split, join_with, contains}
use data_csi.Go.Texts.{is_space, trim_left, trim_right, trim_space, spaced}
use data_csi.Go.Replace.{cut_prefix, replace_first, Lacks, IsFirst}
use data_csi.Build.{prepared_notes_path, slice_one, bumped_version}
use data_csi.Go.Filepath.{join, clean, elements, walk, keep, up, stack_text, render, is_abs}
use data_csi.Build.Sdk.{Reference}
use data_csi.Build.Sdk.Laws.{values}
use data_csi.Build.Project.{Csi}
use data_csi.Build.Releaser.{build_container, build}
use data_csi.Build.Releaser.Laws.{or, releaser_base, build_lem}
use data_csi.Build.Image.{image_url, image_index}
use data_csi.Build.Image.Laws.{IsVariant, image_index_publishes}
use data_csi.Build.Release.{
  fails, Release, version, version_container, git_cliff_container, with_token, notes, prepare,
  set_chart_version, release, publish, publish_container, publish_chart, chart_path,
  chart_values_path,
}
use data_csi.Build.Release.Notes.{rows, with_tables, tables, notes_tables}
use data_csi.Build.Release.Laws.{IsPrepared, prepare_decides}
use data_csi.Build.Release.Published.{publish_prepared, publish_chart_prepared}
use data_csi.Build.Lint.{lint, yamllint, markdownlint, go_lint, linters, lint_all}
use data_csi.Build.Lint.Laws.{AllPass, lint_all_passes}
use data_csi.Tests.Engine.{engine, engine_laws}

-- The host limits the threads and not the memory.
abbrev host_env : String → Option String
host_env name = if name == "GOMAXPROCS" then some "4" else none

abbrev sources : String → String
sources path = "text"

abbrev csi : Csi engine
csi = record { source = sources; registry_config = []; netrc = none }

linux_has_no_slash : contains b'/' "linux" ≡ false
unfolding contains
linux_has_no_slash = refl

amd64_has_no_slash : contains b'/' "amd64" ≡ false
unfolding contains
amd64_has_no_slash = refl

build_lem_example :
    let platform = "linux" <> ("/" <> "amd64") in
    let ctr = build_container engine host_env sources platform in
    (build engine host_env sources platform true
      ≡ engine.file ("csi-bottle-" <> ("linux" <> ("-" <> "amd64"))) (
          engine.with_exec
            ("goreleaser"
              ∷ "build"
              ∷ "--auto-snapshot"
              ∷ "--timeout=10m"
              ∷ "--single-target"
              ∷ "--output"
              ∷ ("csi-bottle-" <> ("linux" <> ("-" <> "amd64")))
              ∷ "--snapshot=true"
              ∷ [])
            ctr))
    × (engine.workdir ctr ≡ "/work/src")
    × (engine.directory "/work/src" ctr ≡ sources)
    × (engine.env_variable "GOOS" ctr ≡ "linux")
    × (engine.env_variable "GOARCH" ctr ≡ "amd64")
    × (engine.env_variable "GOMAXPROCS" ctr
        ≡ or (host_env "GOMAXPROCS") (engine.env_variable "GOMAXPROCS" (releaser_base engine)))
    × (engine.env_variable "GOMEMLIMIT" ctr
        ≡ or (host_env "GOMEMLIMIT") (engine.env_variable "GOMEMLIMIT" (releaser_base engine)))
build_lem_example =
    build_lem engine engine_laws host_env sources "linux" "amd64" true linux_has_no_slash
      amd64_has_no_slash

abbrev address : String
address = "ghcr.io/act3-ai/csi-bottle:v1.2.3"

abbrev platforms : List String
platforms = "linux/amd64" ∷ "linux/arm64" ∷ []

image_index_publishes_example :
    ((ref : Reference) × (engine.parse_reference address ≡ ok ref)
      × (made : List engine.Container) × (image_of : String → engine.Container) × (image_index
            engine host_env csi "v1.2.3" address platforms
          ≡ engine.publish address made engine.container)
      × Perm made (map image_of platforms)
      × ((platform : String)
          → IsVariant engine host_env csi "v1.2.3" (image_url ref) platform (image_of platform)))
    ⊎ ((e : Error) × (engine.parse_reference address ≡ err e)
        × (image_index engine host_env csi "v1.2.3" address platforms
            ≡ err (wrap "parsing address" e)))
image_index_publishes_example =
    image_index_publishes engine host_env engine_laws csi "v1.2.3" address platforms

abbrev next_release : Release engine
next_release = record { source = sources; token = some "token" }

next_version : version engine next_release ≡ ok "1.2.3"
unfolding version version_container git_cliff_container with_token bumped_version slice_one
    trim_space trim_left trim_right is_space ◌==◌
next_version = refl

version_has_no_slash : contains b'/' "1.2.3" ≡ false
unfolding contains
version_has_no_slash = refl

version_is_not_spaced : spaced "1.2.3" ≡ false
unfolding is_space
version_is_not_spaced = refl

release_is_prepared : (d : engine.Directory) × (prepare engine next_release ≡ ok d)
unfolding prepare version version_container git_cliff_container with_token bumped_version slice_one
    trim_space trim_left trim_right is_space notes ◌==◌
release_is_prepared = (_, refl)

prepare_decides_example :
    ((n : String) × (d : engine.Directory) × (notes engine next_release "1.2.3" ≡ ok n)
      × (prepare engine next_release ≡ ok d)
      × IsPrepared engine next_release "1.2.3" n d)
    ⊎ ((e : Error) × (notes engine next_release "1.2.3" ≡ err e)
        × (prepare engine next_release ≡ err (fails e)))
prepare_decides_example =
    prepare_decides engine engine_laws next_release "1.2.3" next_version version_has_no_slash

-- The sources of the next commit: the files that were prepared, over those that were there.
abbrev exported : String → String
exported path = if path == "README.md" then sources path else release_is_prepared.0 path

exported_version :
    engine.file_in "VERSION" exported ≡ engine.file_in "VERSION" release_is_prepared.0
unfolding ◌==◌
exported_version = refl

exported_notes :
    engine.file_in (prepared_notes_path "1.2.3") exported
    ≡ engine.file_in (prepared_notes_path "1.2.3") release_is_prepared.0
unfolding prepared_notes_path join clean elements walk keep up stack_text render is_abs split
    join_with ◌==◌
exported_notes = refl

exported_chart :
    engine.file_in chart_path exported ≡ engine.file_in chart_path release_is_prepared.0
unfolding chart_path join clean elements walk keep up stack_text render is_abs split join_with ◌==◌
exported_chart = refl

exported_values :
    engine.file_in chart_values_path exported
    ≡ engine.file_in chart_values_path release_is_prepared.0
unfolding chart_values_path join clean elements walk keep up stack_text render is_abs split
    join_with ◌==◌
exported_values = refl

publish_prepared_example :
    let path = "releases" <> ("/" <> ("v" <> ("1.2.3" <> ".md"))) in
    let ctr = publish_container engine host_env exported "token" "key" "author" "email" true in
    (publish engine host_env exported "token" "key" "author" "email" true
      ≡ engine.stdout (
          engine.with_exec
            ("goreleaser" ∷ "release" ∷ "--fail-fast" ∷ "--release-notes" ∷ path ∷ [])
            ctr))
    × (engine.workdir ctr ≡ "/work/src")
    × (engine.directory "/work/src" ctr ≡ exported)
    × (n : String) × (notes engine next_release "1.2.3" ≡ ok n)
    × (engine.contents (engine.file_in path exported) ≡ ok n)
publish_prepared_example =
    publish_prepared engine engine_laws host_env next_release "1.2.3" release_is_prepared.0 exported
      "token" "key" "author" "email" true next_version version_has_no_slash version_is_not_spaced
      release_is_prepared.1 exported_version exported_notes

publish_chart_prepared_example :
    (chart : engine.Directory) × (publish_chart engine
        (release engine exported none)
        "ghcr.io/charts"
        "ghcr.io"
        "user"
        "secret"
      ≡ engine.publish_package "ghcr.io/charts" (
          engine.helm_package true (
            engine.helm_chart chart
              (engine.helm_with_registry_auth "ghcr.io" "user" "secret" engine.helm))))
    × (engine.file_in "Chart.yaml" chart ≡ (set_chart_version engine next_release "1.2.3").0)
    × (engine.file_in "values.yaml" chart ≡ (set_chart_version engine next_release "1.2.3").1)
publish_chart_prepared_example =
    publish_chart_prepared engine engine_laws next_release "1.2.3" release_is_prepared.0 exported
      none "ghcr.io/charts" "ghcr.io" "user" "secret" next_version version_has_no_slash
      release_is_prepared.1 exported_chart exported_values

abbrev written : String
written = "Intro\n### Fixes\n### More\n"

notes_tables_example :
    (Lacks "### " written × (with_tables "1.2.3" written ≡ written))
    ⊎ ((before : String) × (after : String) × (written ≡ before <> ("### " <> after))
        × IsFirst "### " before after
        × (with_tables "1.2.3" written ≡ before <> (rows "1.2.3" <> ("### " <> after))))
notes_tables_example = notes_tables "1.2.3" written

tables_stand_first :
    with_tables "1.2.3" "Intro\n### Fixes\n### More\n"
    ≡ "Intro\n" <> (tables "1.2.3" <> "Fixes\n### More\n")
unfolding with_tables tables replace_first cut_prefix
tables_stand_first = refl

abbrev status_text : Status → String
status_text status = "status"

lint_all_passes_example :
    let l = lint engine csi in
    (((lint_all engine status_text l sources).1 ≡ none) ↔ (
      (is_ok (yamllint engine l.source) ≡ true)
      × (is_ok (markdownlint engine l.source) ≡ true)
      × (is_ok (go_lint engine l) ≡ true)
      × AllPass engine (engine.directory_in "bin" sources)))
    × (texts : List String) × Perm texts (values (linters engine status_text l sources))
    × ((lint_all engine status_text l sources).0 ≡ join_with "\n=====\n" texts)
lint_all_passes_example = lint_all_passes engine engine_laws status_text (lint engine csi) sources
