-- ===== src/Build/Laws.antt =====
-- How the names of binaries tell platforms apart, and how a release finds what was prepared.
use text.Mathlib.TextLemmas.{
  append_assoc, cons-append, nil-append, cons-ne-nil, append-ne-nil_of_right_ne-nil,
  append_cancel_left,
}
use Prim.Native.Char.{Char}
use data_csi.Base.{
  String, ◌<>◌, ◌≡◌, ◌≢◌, refl, sym, ◌∙◌, false, ok, arith, ◌==◌, eq_iff, eq-false_of_ne,
  if◌then◌else◌, Bool-cases, inl, inr,
}
use data_csi.Go.Strings.{contains}
use data_csi.Go.Texts.{
  replace_all, trim_space, spaced, replace_all-append, replace_all_of_not_contains,
  replace_all-injective, cut-append, trim_space-line,
}
use data_csi.Build.{
  binary_name, build_target, slice_one, bumped_version, version_file, prepared_notes_path,
  published_tag, published_notes_path,
}

dashed-ne-empty : (c : Char) (t : String) → String.◌∷◌ c "" <> t ≢ ""
dashed-ne-empty c t e = cons-ne-nil c ("" <> t) (sym (cons-append c "" t) ∙ e)

slashed-ne-empty : (os arch : String) → os <> ("/" <> arch) ≢ ""
slashed-ne-empty os arch = append-ne-nil_of_right_ne-nil os (dashed-ne-empty "/" arch)

-- For a platform `os/arch`, whose two parts have no slash, the binary is named after the two
-- variables that it is built with.
pub binary_name-target :
    (os arch : String)
    → contains b'/' os ≡ false
    → contains b'/' arch ≡ false
    → let platform = os <> ("/" <> arch) in
      (build_target platform ≡ (os, arch))
      × (binary_name platform ≡ "csi-bottle-" <> (os <> ("-" <> arch)))
unfolding build_target binary_name replace_all
binary_name-target os arch h k = (
  rw (cons-append, nil-append) (cut-append "/" os arch h),
  rw (eq-false_of_ne _ "" (slashed-ne-empty os arch)) (
      rw
        (
          replace_all-append "/" "-" os ("/" <> arch),
          replace_all_of_not_contains "/" "-" os h,
          replace_all-append "/" "-" "/" arch,
          replace_all_of_not_contains "/" "-" arch k,
        )
        (sym (append_assoc "csi-bottle" "-" (os <> ("-" <> arch))))),
)

-- What follows `csi-bottle` in the name.
abbrev suffix : String → String
suffix platform = if platform == "" then "" else "-" <> replace_all "/" "-" platform

binary_name-suffix : (platform : String) → binary_name platform ≡ "csi-bottle" <> suffix platform
unfolding binary_name
binary_name-suffix platform = elim (Bool-cases (platform == "")) [
  | inl x ↦ rw x refl
  | inr x ↦ rw x refl
]

suffix-injective :
    (platform other : String)
    → contains b'-' platform ≡ false
    → contains b'-' other ≡ false
    → suffix platform ≡ suffix other
    → platform ≡ other
suffix-injective platform other h k e = elim (Bool-cases (platform == "")) [
  | inl x ↦ elim (Bool-cases (other == "")) [
    | inl y ↦ ground (arith, eq_iff platform "", eq_iff other "")
    | inr y ↦ absurd (dashed-ne-empty "-" (replace_all "/" "-" other) (sym (rw (x, y) at e)))
  ]
  | inr x ↦ elim (Bool-cases (other == "")) [
    | inl y ↦ absurd (dashed-ne-empty "-" (replace_all "/" "-" platform) (rw (x, y) at e))
    | inr y ↦
        replace_all-injective "/" "-" platform other h k
          (append_cancel_left "-" _ _ (rw (x, y) at e))
  ]
]

-- Two platforms without a dash in them, whose binaries have one name, are the same.
pub binary_name-injective :
    (platform other : String)
    → contains b'-' platform ≡ false
    → contains b'-' other ≡ false
    → binary_name platform ≡ binary_name other
    → platform ≡ other
binary_name-injective platform other h k e = suffix-injective platform other h k (
    append_cancel_left "csi-bottle" _ _
      (sym (binary_name-suffix platform) ∙ e ∙ binary_name-suffix other))

slice_one_ok :
    (text rest : String) → slice_one text ≡ ok rest → (c : Char) × (text ≡ String.◌∷◌ c rest)
unfolding slice_one
slice_one_ok String.[] rest h = absurd (ground arith)
slice_one_ok (String.◌∷◌ c s) rest h = (c, ground arith)

-- A version that was bumped, and does not begin with a space, is read back from the file that
-- `Prepare` writes, and the notes are looked for where they were written.
pub publish-prepare :
    (printed version : String)
    → bumped_version printed ≡ ok version
    → spaced version ≡ false
    → (published_tag (version_file version) ≡ "v" <> version)
      × (published_notes_path (version_file version) ≡ prepared_notes_path version)
unfolding bumped_version version_file prepared_notes_path published_tag published_notes_path
publish-prepare printed version h n =
    let (c, e) = slice_one_ok (trim_space printed) version h in
    let read : trim_space (version <> "\n") ≡ version = trim_space-line printed c version e n in
    rw read (refl, rw (append_assoc "v" version ".md") refl)
