-- ===== src/Build/Release/Published.antt =====
-- That the publication of a release, and that of its chart, find what was prepared.
use data_csi.Base.{
  String, ◌<>◌, ◌≡◌, refl, sym, ◌∙◌, inl, inr, Bool, true, false, [], ◌∷◌, Option, ok, Result-cases,
  arith, ◌==◌,
}
use data_csi.Go.Strings.{split, join_with, contains}
use data_csi.Go.Texts.{spaced}
use data_csi.Go.Filepath.{
  join, dir, clean, elements, walk, keep, up, stack_text, render, is_abs, up_to_slash,
}
use data_csi.Build.{prepared_notes_path, bumped_version, version_file, published_notes_path}
use data_csi.Build.Laws.{publish-prepare}
use data_csi.Build.Sdk.{Sdk}
use data_csi.Build.Sdk.Laws.{SdkLaws}
use data_csi.Build.Releaser.Laws.{workdir-go_releaser, directory-go_releaser}
use data_csi.Build.Release.{
  Release, release, version, version_container, notes, set_chart_version, prepare, publish_chart,
  publish_container, publish, chart_path, chart_values_path,
}
use data_csi.Build.Release.Paths.{notes_name, notes_path_lem}
use data_csi.Build.Release.Laws.{IsPrepared, prepare_decides}

notes_found :
    (printed v : String)
    → bumped_version printed ≡ ok v
    → spaced v ≡ false
    → contains b'/' v ≡ false
    → published_notes_path (v <> "\n") ≡ "releases" <> ("/" <> notes_name v)
unfolding version_file
notes_found printed v b k h = (publish-prepare printed v b k).1 ∙ notes_path_lem v h

module _ (S : Sdk) where
  version_ok :
      (r : Release S) (v : String)
      → version S r ≡ ok v
      → (printed : String) × (bumped_version printed ≡ ok v)
  unfolding version
  version_ok r v e = elim (Result-cases (S.stdout (version_container S r))) [
    | inr (f, failed) ↦ absurd (ground (arith))
    | inl (printed, p) ↦ elim (Result-cases (bumped_version printed)) [
      | inl (w, b) ↦ (printed, ground arith)
      | inr (m, b) ↦ absurd (ground (arith))
    ]
  ]

  -- A release that was prepared.
  prepare-IsPrepared :
      (L : SdkLaws S) (r : Release S) (v : String) (d : S.Directory)
      → version S r ≡ ok v
      → contains b'/' v ≡ false
      → prepare S r ≡ ok d
      → (n : String) × IsPrepared S r v n d × (notes S r v ≡ ok n)
  prepare-IsPrepared L r v d bumped h made = elim (prepare_decides S L r v bumped h) [
    | inl (n, same, written, p, files) ↦
        let q : same ≡ d = cc (p, made) in (n, rw q at files, written)
    | inr (e, failed, p) ↦ absurd (ground arith)
  ]

  module _ (L : SdkLaws S) (lookup_env : String → Option String) where
    -- A prepared release, whose version has no slash in it and no space in front, is published from
    -- any sources that have the prepared version file and notes: goreleaser runs in these sources
    -- with the path of the notes, where they have the notes that were written for that version.
    pub publish_prepared :
        (r : Release S) (v : String) (d src : S.Directory) (token key : S.Secret)
        (author email : String) (latest : Bool)
        → version S r ≡ ok v
        → contains b'/' v ≡ false
        → spaced v ≡ false
        → prepare S r ≡ ok d
        → S.file_in "VERSION" src ≡ S.file_in "VERSION" d
        → S.file_in (prepared_notes_path v) src ≡ S.file_in (prepared_notes_path v) d
        → let path = "releases" <> ("/" <> ("v" <> (v <> ".md"))) in
          let ctr = publish_container S lookup_env src token key author email latest in
          (publish S lookup_env src token key author email latest
            ≡ S.stdout (
                S.with_exec
                  ("goreleaser" ∷ "release" ∷ "--fail-fast" ∷ "--release-notes" ∷ path ∷ [])
                  ctr))
          × (S.workdir ctr ≡ "/work/src")
          × (S.directory "/work/src" ctr ≡ src)
          × (n : String) × (notes S r v ≡ ok n)
          × (S.contents (S.file_in path src) ≡ ok n)
    unfolding publish publish_container
    publish_prepared r v d src token key author email latest bumped h k made same_version
          same_notes =
        let (n, p, written) = prepare-IsPrepared L r v d bumped h made in
        let (printed, b) = version_ok r v bumped in
        let found = notes_found printed v b k h in
        (
          rw (publish, same_version, p.version_contents, found) refl,
          simp (L.workdir-with_env_variable, L.workdir-with_secret_variable)
              (workdir-go_releaser S L lookup_env src),
          simp (L.directory-with_env_variable, L.directory-with_secret_variable)
              (directory-go_releaser S L lookup_env src),
          n,
          written,
          rw (sym (notes_path_lem v h), same_notes) p.notes_contents,
        )

  module _ (L : SdkLaws S) where
    -- From sources that have the two prepared files of the chart, the chart is published with these
    -- files, so with the version that was set in both.
    pub publish_chart_prepared :
        (r : Release S) (v : String) (d src : S.Directory) (token : Option S.Secret)
        (oci_repo address username : String) (secret : S.Secret)
        → version S r ≡ ok v
        → contains b'/' v ≡ false
        → prepare S r ≡ ok d
        → S.file_in chart_path src ≡ S.file_in chart_path d
        → S.file_in chart_values_path src ≡ S.file_in chart_values_path d
        → (chart : S.Directory) × (publish_chart S
              (release S src token)
              oci_repo
              address
              username
              secret
            ≡ S.publish_package oci_repo (
                S.helm_package true
                  (S.helm_chart chart (S.helm_with_registry_auth address username secret S.helm))))
          × (S.file_in "Chart.yaml" chart ≡ (set_chart_version S r v).0)
          × (S.file_in "values.yaml" chart ≡ (set_chart_version S r v).1)
    unfolding publish_chart release chart_path chart_values_path dir up_to_slash join clean elements
        walk keep up stack_text render is_abs split join_with ◌==◌
    publish_chart_prepared r v d src token oci_repo address username secret bumped h made chart
          values =
        let (n, p, written) = prepare-IsPrepared L r v d bumped h made in
        (
          S.directory_in "charts/csi-bottle" src,
          refl,
          L.file_in-directory_in "charts/csi-bottle" "Chart.yaml" src ∙ chart ∙ p.chart_file,
          L.file_in-directory_in "charts/csi-bottle" "values.yaml" src ∙ values ∙ p.values_file,
        )
