-- ===== src/Build/Release/Paths.antt =====
-- The paths of the files of a release, and that none lies below another.
use text.Mathlib.TextLemmas.{nil-append, cons-append, cons-ne-nil}
use data_csi.Base.{ℕ, String, ◌<>◌, ◌≡◌, refl, sym, ◌∙◌, true, false, ◌||◌, [], ◌∷◌, arith, ◌==◌}
use data_csi.Go.Strings.{split, join_with, contains, split_of_not_contains}
use data_csi.Go.Filepath.{join, clean, elements, walk, keep, up, stack_text, render, is_abs}
use data_csi.Go.Filepath.Normal.{IsElement, split-slash}
use data_csi.Go.Filepath.Laws.{clean-slash, join_two, walk_element}
use data_csi.Build.{prepared_notes_path}
use data_csi.Build.Sdk.Laws.{apart}
use data_csi.Build.Release.{chart_path, chart_values_path}

-- The name of the notes.
abbrev pub notes_name : String → String
notes_name version = "v" <> (version <> ".md")

contains-append :
    (sep : ℕ) (s t : String) → contains sep (s <> t) ≡ (contains sep s || contains sep t)
unfolding contains
contains-append sep String.[] t = rw nil-append refl
contains-append sep (String.◌∷◌ c s) t = rw (cons-append) (ground (arith, contains-append sep s t))

notes_name-IsElement :
    (version : String) → contains b'/' version ≡ false → IsElement (notes_name version)
unfolding contains
notes_name-IsElement version h = record {
  ne_empty = λ e. cons-ne-nil "v" _ (sym (cons-append "v" "" (version <> ".md")) ∙ e);
  ne_dot = λ e. let same = sym (cons-append "v" "" (version <> ".md")) ∙ e in cc (same);
  ne_dots = λ e. let same = sym (cons-append "v" "" (version <> ".md")) ∙ e in cc (same);
  no_slash = rw (contains-append, contains-append, h) refl;
}

pub notes_path_lem :
    (version : String)
    → contains b'/' version ≡ false
    → prepared_notes_path version ≡ "releases" <> ("/" <> notes_name version)
unfolding prepared_notes_path
notes_path_lem version h =
    join_two "releases" (notes_name version) (λ e. cc)
    ∙ clean-slash "releases" (notes_name version) (λ e. cc)
    ∙ rw (walk_element _ _ _ (notes_name-IsElement version h))
        (unfold is_abs elements walk keep up split render stack_text ◌==◌ in refl)

split-notes_path :
    (version : String)
    → contains b'/' version ≡ false
    → split b'/' (prepared_notes_path version) ≡ "releases" ∷ notes_name version ∷ []
split-notes_path version h =
    rw (notes_path_lem version h, split-slash)
      (rw (split_of_not_contains _ _ (notes_name-IsElement version h).no_slash)
        (unfold split in refl))

-- The paths that `Prepare` writes part at an element.
pub notes-apart-chart :
    (version : String)
    → contains b'/' version ≡ false
    → apart (split b'/' (prepared_notes_path version)) (split b'/' chart_path) ≡ true
notes-apart-chart version h = rw (split-notes_path version h) (
    unfold chart_path join clean elements walk keep up stack_text render is_abs split join_with
      ◌==◌ in
    refl)

pub notes-apart-values :
    (version : String)
    → contains b'/' version ≡ false
    → apart (split b'/' (prepared_notes_path version)) (split b'/' chart_values_path) ≡ true
notes-apart-values version h = rw (split-notes_path version h) (
    unfold chart_values_path join clean elements walk keep up stack_text render is_abs split
      join_with ◌==◌ in
    refl)

pub top-apart-notes :
    (name version : String)
    → contains b'/' version ≡ false
    → contains b'/' name ≡ false
    → (name == "releases") ≡ false
    → apart (split b'/' name) (split b'/' (prepared_notes_path version)) ≡ true
top-apart-notes name version h k n =
    rw (split-notes_path version h, split_of_not_contains _ name k, n) refl

pub top-apart-charts :
    (name : String)
    → contains b'/' name ≡ false
    → (name == "charts") ≡ false
    → (apart (split b'/' name) (split b'/' chart_path) ≡ true)
      × (apart (split b'/' name) (split b'/' chart_values_path) ≡ true)
unfolding chart_path chart_values_path join clean elements walk keep up stack_text render is_abs
    split join_with ◌==◌
top-apart-charts name k n = rw (split_of_not_contains _ name k, n) (refl, refl)

pub chart-apart-values : apart (split b'/' chart_path) (split b'/' chart_values_path) ≡ true
unfolding chart_path chart_values_path join clean elements walk keep up stack_text render is_abs
    split join_with ◌==◌
chart-apart-values = refl
