-- ===== src/Build/Release/Notes.antt =====
-- .dagger/release.go: how `Notes` puts the tables of charts and images into the notes.
use text.Mathlib.TextLemmas.{append_assoc}
use data_csi.Base.{String, ◌<>◌, ◌≡◌, ◌∙◌, ap, ◌⊎◌, inl, inr}
use data_csi.Go.Replace.{replace_first, Lacks, IsFirst, replace_first-IsReplaced}

-- The tables, and the heading that follows them.
unfoldable pub tables : String → String
tables version =
    "| Charts |\n"
    <> ("| ----------------------------------------------------- |\n"
        <> ("| ghcr.io/act3-ai/data-csi/charts/csi-bottle:"
            <> (version
                <> (" |\n\n"
                    <> ("| Images |\n"
                        <> ("| --------------------------------------------------------- |\n"
                            <> ("| ghcr.io/act3-ai/data-csi/csi-bottle:"
                                <> ("v" <> (version <> (" |\n\n" <> "### "))))))))))

-- `strings.Replace(notes, "### ", b.String(), 1)`
unfoldable pub with_tables : String → String → String
with_tables version notes = replace_first "### " (tables version) notes

-- A row of the tables for each the chart and the image of a version, with an empty line at the end.
abbrev pub rows : String → String
rows version =
    "| Charts |\n"
    <> ("| ----------------------------------------------------- |\n"
        <> ("| ghcr.io/act3-ai/data-csi/charts/csi-bottle:"
            <> (version
                <> (" |\n\n"
                    <> ("| Images |\n"
                        <> ("| --------------------------------------------------------- |\n"
                            <> ("| ghcr.io/act3-ai/data-csi/csi-bottle:"
                                <> ("v" <> (version <> " |\n\n")))))))))

tables-rows : (version : String) → tables version ≡ rows version <> "### "
unfolding tables
tables-rows version = simp append_assoc

-- The tables are put in front of the first text `### ` of the written notes, and nothing of the notes
-- is lost. That is wherever the text stands first, in the row `#### ` of a deeper heading too. Notes
-- without it stay as they are: they get no tables.
pub notes_tables :
    (version written : String)
    → (Lacks "### " written × (with_tables version written ≡ written))
      ⊎ ((before : String) × (after : String) × (written ≡ before <> ("### " <> after))
          × IsFirst "### " before after
          × (with_tables version written ≡ before <> (rows version <> ("### " <> after))))
unfolding with_tables
notes_tables version written = elim (replace_first-IsReplaced "### " (tables version) written) [
  | inl lacks ↦ inl lacks
  | inr (before, after, e, first, replaced) ↦ inr (
    before,
    after,
    e,
    first,
    replaced
        ∙ ap (λ t. before <> t)
            (ap (λ t. t <> after) (tables-rows version) ∙ append_assoc (rows version) "### " after),
  )
]
