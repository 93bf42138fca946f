-- ===== src/Build/Image.antt =====
-- .dagger/build.go: the image of the driver for each platform, and their index.
pub mod Laws
use data_csi.Base.{String, ◌<>◌, List, [], ◌∷◌, map, false, Option, none, some, Result, ok, err}
use data_csi.Errors.{Error, wrap}
use data_csi.Go.Filepath.{join}
use data_csi.Build.Sdk.{Sdk, Reference, ◌▸◌, ◌>>=◌, map_error}
use data_csi.Build.Project.{Csi, image_distroless_debian}
use data_csi.Build.Releaser.{csi_build}

-- `imgURL`. `path.Join` is `filepath.Join` of a Unix system.
unfoldable pub image_url : Reference → String
image_url ref = "https://" <> join (ref.registry ∷ ref.repository ∷ [])

module _ (S : Sdk) where
  -- `withCommonLabels`
  unfoldable pub with_common_labels : String → S.Container → S.Container
  with_common_labels version ctr =
      ctr
      ▸ S.with_label "maintainers" "Nathan D. Joslin <nathan.joslin@udri.udayton.edu>"
      ▸ S.with_label "org.opencontainers.image.vendor" "AFRL ACT3"
      ▸ S.with_label "org.opencontainers.image.version" version
      ▸ S.with_label "org.opencontainers.image.title" "CSI Driver"
      ▸ S.with_label "org.opencontainers.image.url" "ghcr.io/act3-ai/data-csi"
      ▸ S.with_label "org.opencontainers.image.description" "ACE Data Tool Telemetry Server"
      ▸ S.with_label "org.opencontainers.image.source" "https://github.com/act3-ai/data-csi"

  -- `ImageIndex` with what the pool gives.
  unfoldable pub publish_variants : String → List S.Container × Option Error → Result Error String
  publish_variants address (made, some e) = err (wrap "building images" e)
  publish_variants address (made, none) = S.publish address made S.container

module _ (S : Sdk) (lookup_env : String → Option String) where
  -- `Image`
  unfoldable pub image : Csi S → String → String → S.Container
  image c version platform =
      S.container_on platform
      ▸ S.from image_distroless_debian
      ▸ S.with_file "/usr/local/bin/csi-bottle" (csi_build S lookup_env c platform false)
      ▸ S.with_entrypoint ("csi-bottle" ∷ [])
      ▸ S.with_workdir "/"
      ▸ S.with_label "description" "CSI Driver - For ASCE Data Bottles"
      ▸ with_common_labels S version

  -- What a function in the pool of `ImageIndex` returns.
  unfoldable pub variant : Csi S → String → String → String → S.Container
  variant c version img_url platform =
      image c version platform
      ▸ S.with_label "org.opencontainers.image.url" img_url
      ▸ S.with_label "org.opencontainers.image.source" "https://github.com/act3-ai/data-csi"

  unfoldable pub variants : Csi S → String → String → List String → List (Result Error S.Container)
  variants c version img_url [] = []
  variants c version img_url (platform ∷ platforms) =
      ok (variant c version img_url platform) ∷ variants c version img_url platforms

  -- `ImageIndex`
  unfoldable pub image_index : Csi S → String → String → List String → Result Error String
  image_index c version address platforms = do
    ref ← map_error (wrap "parsing address") (S.parse_reference address)
    publish_variants S address (S.wait (variants c version (image_url ref) platforms))
