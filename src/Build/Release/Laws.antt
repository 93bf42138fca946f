-- ===== src/Build/Release/Laws.antt =====
-- What a release is prepared as, and that its publication and that of its chart find it.
use data_csi.Base.{
  String, ◌<>◌, ◌≡◌, refl, ◌∙◌, ap, ◌⊎◌, inl, inr, false, ok, err, Result-cases, ◌==◌,
}
use data_csi.Errors.{Error}
use data_csi.Go.Strings.{split, contains}
use data_csi.Build.{version_file, prepared_notes_path}
use data_csi.Build.Sdk.{Sdk}
use data_csi.Build.Sdk.Laws.{SdkLaws}
use data_csi.Build.Release.{
  fails, Release, changelog, version, notes, prepared, set_chart_version, prepare, chart_path,
  chart_values_path,
}
use data_csi.Build.Release.Paths.{
  notes-apart-chart, notes-apart-values, top-apart-notes, top-apart-charts, chart-apart-values,
}

module _ (S : Sdk) where
  -- A directory with the files of a release.
  pub record IsPrepared (r : Release S) (v n : String) (d : S.Directory) : Type 0 where
    pub changelog_file : S.file_in "CHANGELOG.md" d ≡ changelog S r
    pub version_contents : S.contents (S.file_in "VERSION" d) ≡ ok (v <> "\n")
    pub notes_contents : S.contents (S.file_in (prepared_notes_path v) d) ≡ ok n
    pub chart_file : S.file_in chart_path d ≡ (set_chart_version S r v).0
    pub values_file : S.file_in chart_values_path d ≡ (set_chart_version S r v).1

  module _ (L : SdkLaws S) where
    -- A file at the top that is there before the notes and the charts is there after them.
    top_kept :
        (name v n : String) (d : S.Directory) (chart values : S.File)
        → contains b'/' v ≡ false
        → contains b'/' name ≡ false
        → (name == "releases") ≡ false
        → (name == "charts") ≡ false
        → S.file_in name (
            S.add_file chart_values_path values
              (S.add_file chart_path chart (S.add_new_file (prepared_notes_path v) n d)))
          ≡ S.file_in name d
    top_kept name v n d chart values h k a b =
        L.file_in-add_file-apart _ _ values _ (top-apart-charts name k b).1
        ∙ L.file_in-add_file-apart _ _ chart _ (top-apart-charts name k b).0
        ∙ L.file_in-add_new_file-apart _ _ n _ (top-apart-notes name v h k a)

    prepared-IsPrepared :
        (r : Release S) (v n : String)
        → contains b'/' v ≡ false
        → IsPrepared r v n (prepared S (changelog S r) v n (set_chart_version S r v))
    unfolding prepared version_file split contains ◌==◌
    prepared-IsPrepared r v n h = record {
      changelog_file =
          top_kept "CHANGELOG.md" v n _ _ _ h refl refl refl
          ∙ L.file_in-add_new_file-apart _ _ _ _ refl
          ∙ L.file_in-add_file _ _ _;
      version_contents =
          ap S.contents (top_kept "VERSION" v n _ _ _ h refl refl refl)
          ∙ L.contents-add_new_file _ _ _;
      notes_contents =
          ap S.contents (
            L.file_in-add_file-apart _ _ _ _ (notes-apart-values v h)
            ∙ L.file_in-add_file-apart _ _ _ _ (notes-apart-chart v h))
          ∙ L.contents-add_new_file _ _ _;
      chart_file = L.file_in-add_file-apart _ _ _ _ chart-apart-values ∙ L.file_in-add_file _ _ _;
      values_file = L.file_in-add_file _ _ _;
    }

    -- Where the bumped version has no slash, `Prepare` succeeds exactly if the notes can be written,
    -- and then its directory has the changelog, the version, the notes and the updated chart; else
    -- it fails with the error of the notes.
    pub prepare_decides :
        (r : Release S) (v : String)
        → version S r ≡ ok v
        → contains b'/' v ≡ false
        → ((n : String) × (d : S.Directory) × (notes S r v ≡ ok n)
            × (prepare S r ≡ ok d)
            × IsPrepared r v n d)
          ⊎ ((e : Error) × (notes S r v ≡ err e) × (prepare S r ≡ err (fails e)))
    unfolding prepare
    prepare_decides r v bumped h = elim (Result-cases (notes S r v)) [
      | inl (n, written) ↦
          inl (n, _, written, rw (prepare, bumped, written) refl, prepared-IsPrepared r v n h)
      | inr (e, failed) ↦ inr (e, failed, rw (prepare, bumped, failed) refl)
    ]
