-- ===== src/Build/Image/Laws.antt =====
-- What the published index consists of.
use mathlib.Core.List.{Perm}
use data_csi.Base.{
  String, ◌≡◌, refl, sym, ◌∙◌, ◌⊎◌, inl, inr, true, false, List, [], ◌∷◌, map, Option, none, some,
  ok, err, is_ok, All, Result-cases, ◌==◌,
}
use data_csi.Errors.{Error, wrap}
use data_csi.Go.Filepath.{is_abs}
use data_csi.Build.Sdk.{Sdk, Reference}
use data_csi.Build.Sdk.Laws.{SdkLaws, values}
use data_csi.Build.Project.{Csi}
use data_csi.Build.Releaser.{csi_build}
use data_csi.Build.Image.{
  image_url, with_common_labels, image, variant, variants, publish_variants, image_index,
}

module _ (S : Sdk) (lookup_env : String → Option String) where
  -- The image of a platform: the driver built for it, which is run, and the labels.
  pub record IsVariant (c : Csi S) (version url platform : String) (v : S.Container) : Type 0 where
    platform_lem : S.platform v ≡ platform
    binary : S.file "/usr/local/bin/csi-bottle" v ≡ csi_build S lookup_env c platform false
    runs : S.entrypoint v ≡ "csi-bottle" ∷ []
    workdir_lem : S.workdir v ≡ "/"
    version_label : S.label "org.opencontainers.image.version" v ≡ version
    url_label : S.label "org.opencontainers.image.url" v ≡ url
    title_label : S.label "org.opencontainers.image.title" v ≡ "CSI Driver"
    description_label :
        S.label "org.opencontainers.image.description" v ≡ "ACE Data Tool Telemetry Server"
    own_description : S.label "description" v ≡ "CSI Driver - For ASCE Data Bottles"

  values-variants :
      (c : Csi S) (version url : String) (platforms : List String)
      → values (variants S lookup_env c version url platforms)
        ≡ map (variant S lookup_env c version url) platforms
  unfolding variants
  values-variants c version url [] = refl
  values-variants c version url (p ∷ ps) = rw (values-variants c version url ps)

  variants_ok :
      (c : Csi S) (version url : String) (platforms : List String)
      → All (λ r. is_ok r ≡ true) (variants S lookup_env c version url platforms)
  unfolding variants
  variants_ok c version url [] = tt
  variants_ok c version url (p ∷ ps) = (refl, variants_ok c version url ps)

  published :
      (address : String) (r : List S.Container × Option Error)
      → r.1 ≡ none
      → publish_variants S address r ≡ S.publish address r.0 S.container
  unfolding publish_variants
  published address (made, some e) h = cc
  published address (made, none) h = refl

  module _ (L : SdkLaws S) where
    variant-IsVariant :
        (c : Csi S) (version url platform : String)
        → IsVariant c version url platform (variant S lookup_env c version url platform)
    unfolding variant image with_common_labels is_abs ◌==◌
    variant-IsVariant c version url platform = record {
      platform_lem = simp (
        L.platform-with_label, L.platform-with_workdir, L.platform-with_entrypoint,
        L.platform-with_file, L.platform-from, L.platform-container_on,
      );
      binary =
          simp (L.file-with_label)
            (L.file-with_workdir _ "/" _ refl ∙ simp (L.file-with_entrypoint, L.file-with_file));
      runs =
          simp (L.entrypoint-with_label, L.entrypoint-with_workdir, L.entrypoint-with_entrypoint);
      workdir_lem = simp (L.workdir-with_label) (L.workdir-with_workdir "/" _ refl);
      version_label = simp (L.label-with_label);
      url_label = simp (L.label-with_label);
      title_label = simp (L.label-with_label);
      description_label = simp (L.label-with_label);
      own_description = simp (L.label-with_label);
    }

    -- Where the address is a reference, what is published there is one image for each platform, in
    -- some order: it runs the driver that is built for the platform, has the version, and has as its
    -- url the registry and the repository of the address, and not the url of the labels in common.
    -- Its description is `ACE Data Tool Telemetry Server`. Else the call fails with the error of the
    -- address.
    pub image_index_publishes :
        (c : Csi S) (version address : String) (platforms : List String)
        → ((ref : Reference) × (S.parse_reference address ≡ ok ref)
            × (made : List S.Container) × (image_of : String → S.Container) × (image_index S
                  lookup_env c version address platforms
                ≡ S.publish address made S.container)
            × Perm made (map image_of platforms)
            × ((platform : String)
                → IsVariant c version (image_url ref) platform (image_of platform)))
          ⊎ ((e : Error) × (S.parse_reference address ≡ err e)
              × (image_index S lookup_env c version address platforms
                  ≡ err (wrap "parsing address" e)))
    unfolding image_index
    image_index_publishes c version address platforms =
        elim (Result-cases (S.parse_reference address)) [
          | inr (e, parsed) ↦ inr (e, parsed, rw (image_index, parsed) refl)
          | inl (ref, parsed) ↦
              let all = variants S lookup_env c version (image_url ref) platforms in
              inl (
                ref,
                parsed,
                (S.wait all).0,
                variant S lookup_env c version (image_url ref),
                rw (image_index, parsed)
                    (published address (S.wait all)
                      ((L.wait-error all).1 (variants_ok c version (image_url ref) platforms))),
                rw (sym (values-variants c version (image_url ref) platforms)) (L.wait-values all),
                variant-IsVariant c version (image_url ref),
              )
        ]
