-- ===== src/Build/Lint/Laws.antt =====
-- When the linters pass, and what they print.
use mathlib.Core.List.{Perm}
use data_csi.Base.{
  String, ◌≡◌, refl, ◌↔◌, true, List, [], ◌∷◌, Option, none, some, Result, ok, err, is_ok, All,
}
use data_csi.Errors.{Error, Status}
use data_csi.Go.Strings.{join_with}
use data_csi.Build.Sdk.{Sdk}
use data_csi.Build.Sdk.Laws.{SdkLaws, values}
use data_csi.Build.Lint.{
  task, Lint, yamllint, markdownlint, go_lint, checks, reported, checked, shellcheck, linters,
  lint_all,
}

is_ok-task : {A : Type 0} (r : A × Option Error) → (is_ok (task r) ≡ true) ↔ (r.1 ≡ none)
is_ok-task (a, none) = (λ e. refl, λ e. refl)
is_ok-task (a, some e) = (λ e. cc, λ e. cc)

same_names :
    (r : Result Error (List String)) (names others : List String)
    → r ≡ ok names
    → r ≡ ok others
    → names ≡ others
same_names r names others h k = cc (h, k)

module _ (S : Sdk) where
  -- Whether `shellcheck` passes every file of a directory.
  abbrev pub AllPass : S.Directory → Type 0
  AllPass src =
      (names : List String) × (S.entries src ≡ ok names)
      × All (λ name. is_ok (S.shellcheck (S.file_in name src)) ≡ true) names

module _ (S : Sdk) (L : SdkLaws S) (render : Status → String) where
  reported-none : (o : Option Error) → ((reported S render o).1 ≡ none) ↔ (o ≡ none)
  unfolding reported
  reported-none none = (λ e. refl, λ e. refl)
  reported-none (some e) = (λ e. cc, λ e. cc)

  All-checks :
      (src : S.Directory) (names : List String)
      → All (λ r. is_ok r ≡ true) (checks S src names)
        ↔ All (λ name. is_ok (S.shellcheck (S.file_in name src)) ≡ true) names
  unfolding checks
  All-checks src [] = (λ h. h, λ h. h)
  All-checks src (name ∷ names) =
      let (to, of) = All-checks src names in (λ h. (h.0, to h.1), λ h. (h.0, of h.1))

  checked-none :
      (src : S.Directory) (r : Result Error (List String))
      → ((checked S render src r).1 ≡ none) ↔ (
          (names : List String) × (r ≡ ok names)
          × All (λ name. is_ok (S.shellcheck (S.file_in name src)) ≡ true) names)
  unfolding checked
  checked-none src (err e) = (λ h. cc, λ (names, h, p). cc)
  checked-none src (ok names) =
      let (told, silent) = reported-none (S.wait (checks S src names)).1 in
      let (all, passed) = L.wait-error (checks S src names) in
      let (to, of) = All-checks src names in
      (
        λ h. (names, refl, to (all (told h))),
        λ (others, h, p). silent (passed (of (rw (same_names (ok names) names others refl h) p))),
      )

  -- `Shellcheck` returns an error unless the directory can be listed and every file passes.
  pub shellcheck_passes : (src : S.Directory) → ((shellcheck S render src).1 ≡ none) ↔ AllPass S src
  unfolding shellcheck
  shellcheck_passes src = checked-none src (S.entries src)

  -- `All` returns no error exactly if each of the linters passes, `shellcheck` on every file of the
  -- directory `bin`. In any case its result is what the linters printed that did pass, in some order.
  pub lint_all_passes :
      (l : Lint S) (src : S.Directory)
      → (((lint_all S render l src).1 ≡ none) ↔ (
          (is_ok (yamllint S l.source) ≡ true)
          × (is_ok (markdownlint S l.source) ≡ true)
          × (is_ok (go_lint S l) ≡ true)
          × AllPass S (S.directory_in "bin" src)))
        × (texts : List String) × Perm texts (values (linters S render l src))
        × ((lint_all S render l src).0 ≡ join_with "\n=====\n" texts)
  unfolding lint_all linters
  lint_all_passes l src =
      let bin = S.directory_in "bin" src in
      let (all, passed) = L.wait-error (linters S render l src) in
      let (told, silent) = is_ok-task (shellcheck S render bin) in
      let (to, of) = shellcheck_passes bin in
      (
        (
          λ h. let (y, (m, (g, (s, _)))) = all h in (y, m, g, to (told s)),
          λ (y, m, g, s). passed (y, (m, (g, (silent (of s), tt)))),
        ),
        (S.wait (linters S render l src)).0,
        L.wait-values (linters S render l src),
        refl,
      )
