-- ===== src/Build/Releaser/Laws.antt =====
-- What goreleaser is run with.
use data_csi.Build.Project.{image_go_releaser}
use data_csi.Base.{
  String, ◌<>◌, ◌≡◌, refl, Bool, true, false, [], ◌∷◌, Option, none, some, ◌==◌, if◌then◌else◌,
  arith,
}
use data_csi.Go.Strings.{contains}
use data_csi.Go.Filepath.{is_abs}
use data_csi.Build.Laws.{binary_name-target}
use data_csi.Build.Sdk.{Sdk, ◌▸◌}
use data_csi.Build.Sdk.Laws.{SdkLaws}
use data_csi.Build.Releaser.{
  inherit, go_releaser, build_container, build_command, build, snapshot_flag,
}

abbrev pub or : Option String → String → String
or none s = s
or (some v) s = v

-- The image that goreleaser runs in, as it comes.
abbrev pub releaser_base : (S : Sdk) → S.Container
releaser_base S = S.container ▸ S.from image_go_releaser

module _ (S : Sdk) (L : SdkLaws S) where
  env_variable-inherit :
      (k name : String) (found : Option String) (c : S.Container)
      → S.env_variable k (inherit S name found c)
        ≡ (if k == name then or found (S.env_variable k c) else S.env_variable k c)
  unfolding inherit
  env_variable-inherit k name none c = ground arith
  env_variable-inherit k name (some v) c = L.env_variable-with_env_variable k name v c

  workdir-inherit :
      (name : String) (found : Option String) (c : S.Container)
      → S.workdir (inherit S name found c) ≡ S.workdir c
  unfolding inherit
  workdir-inherit name none c = refl
  workdir-inherit name (some v) c = L.workdir-with_env_variable name v c

  directory-inherit :
      (p name : String) (found : Option String) (c : S.Container)
      → S.directory p (inherit S name found c) ≡ S.directory p c
  unfolding inherit
  directory-inherit p name none c = refl
  directory-inherit p name (some v) c = L.directory-with_env_variable p name v c

module _ (S : Sdk) (L : SdkLaws S) (lookup_env : String → Option String) where
  pub workdir-go_releaser :
      (src : S.Directory) → S.workdir (go_releaser S lookup_env src) ≡ "/work/src"
  unfolding go_releaser is_abs
  workdir-go_releaser src =
      rw (workdir-inherit S L, workdir-inherit S L) (L.workdir-with_workdir _ _ refl)

  pub directory-go_releaser :
      (src : S.Directory) → S.directory "/work/src" (go_releaser S lookup_env src) ≡ src
  unfolding go_releaser is_abs
  directory-go_releaser src =
      rw (directory-inherit S L, directory-inherit S L, L.directory-with_workdir _ _ _ refl)
        (L.directory-with_mounted_directory _ _ _)

  pub env_variable-go_releaser :
      (k : String) (src : S.Directory)
      → S.env_variable k (go_releaser S lookup_env src) ≡ (
          let inherited =
            if k == "GOMAXPROCS"
            then or (lookup_env "GOMAXPROCS") (S.env_variable k (releaser_base S))
            else S.env_variable k (releaser_base S) in
          if k == "GOMEMLIMIT" then or (lookup_env "GOMEMLIMIT") inherited else inherited)
  unfolding go_releaser
  env_variable-go_releaser k src =
      rw
        (
          env_variable-inherit S L,
          env_variable-inherit S L,
          L.env_variable-with_workdir,
          L.env_variable-with_mounted_directory,
          L.env_variable-with_mounted_cache,
        )
        refl

  snapshot_flag_lem :
      (snapshot : Bool)
      → snapshot_flag snapshot ≡ (if snapshot then "--snapshot=true" else "--snapshot=false")
  unfolding snapshot_flag
  snapshot_flag_lem true = refl
  snapshot_flag_lem false = refl

  -- For a platform `os/arch`, whose two parts have no slash, goreleaser runs in the directory of the
  -- sources with the platform's two variables, and with those of the host that limit the runtime of
  -- Go where the host has them; it is told to build for that one target, as a snapshot or not, and to
  -- write its output to the file that is taken.
  pub build_lem :
      (src : S.Directory) (os arch : String) (snapshot : Bool)
      → contains b'/' os ≡ false
      → contains b'/' arch ≡ false
      → let platform = os <> ("/" <> arch) in
        let ctr = build_container S lookup_env src platform in
        (build S lookup_env src platform snapshot
          ≡ S.file ("csi-bottle-" <> (os <> ("-" <> arch))) (
              S.with_exec
                ("goreleaser"
                  ∷ "build"
                  ∷ "--auto-snapshot"
                  ∷ "--timeout=10m"
                  ∷ "--single-target"
                  ∷ "--output"
                  ∷ ("csi-bottle-" <> (os <> ("-" <> arch)))
                  ∷ (if snapshot then "--snapshot=true" else "--snapshot=false")
                  ∷ [])
                ctr))
        × (S.workdir ctr ≡ "/work/src")
        × (S.directory "/work/src" ctr ≡ src)
        × (S.env_variable "GOOS" ctr ≡ os)
        × (S.env_variable "GOARCH" ctr ≡ arch)
        × (S.env_variable "GOMAXPROCS" ctr
            ≡ or (lookup_env "GOMAXPROCS") (S.env_variable "GOMAXPROCS" (releaser_base S)))
        × (S.env_variable "GOMEMLIMIT" ctr
            ≡ or (lookup_env "GOMEMLIMIT") (S.env_variable "GOMEMLIMIT" (releaser_base S)))
  unfolding build build_container build_command ◌==◌
  build_lem src os arch snapshot h k =
      let (target, name) = binary_name-target os arch h k in
      let variables = L.env_variable-with_env_variable in
      rw (target, name, snapshot_flag_lem snapshot)
        (
          refl,
          rw (L.workdir-with_env_variable, L.workdir-with_env_variable) (workdir-go_releaser src),
          rw (L.directory-with_env_variable, L.directory-with_env_variable)
              (directory-go_releaser src),
          rw (variables, variables) refl,
          variables "GOARCH" "GOARCH" arch _,
          rw (variables, variables) (env_variable-go_releaser "GOMAXPROCS" src),
          rw (variables, variables) (env_variable-go_releaser "GOMEMLIMIT" src),
        )
