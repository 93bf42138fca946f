-- ===== src/Build.antt =====
-- .dagger/build.go and .dagger/release.go: what the build pipelines make of a platform and of a
-- version, as texts. The modules below have the pipelines themselves.
pub mod Laws
pub mod Sdk
pub mod Project
pub mod Releaser
pub mod Image
pub mod Release
pub mod Lint
pub mod Checks
use data_csi.Base.{String, ◌<>◌, List, [], ◌∷◌, Bool, Result, ok, err, ◌==◌, if◌then◌else◌}
use data_csi.Go.Texts.{replace_all, cut, trim_space}
use data_csi.Go.Filepath.{join}

-- `binaryName`
unfoldable pub binary_name : String → String
binary_name platform =
    if platform == "" then "csi-bottle" else "csi-bottle" <> ("-" <> replace_all "/" "-" platform)

-- The variables `GOOS` and `GOARCH` of `build`.
unfoldable pub build_target : String → String × String
build_target platform = cut "/" platform

-- `s[1:]`, which panics where `s` is empty. The slice is of bytes; the code takes it of a tag, which
-- begins with an ASCII character.
unfoldable pub slice_one : String → Result String String
slice_one String.[] = err "slice bounds out of range [1:0]"
slice_one (String.◌∷◌ c rest) = ok rest

-- `strings.TrimSpace(version)[1:]` of `Version`, from what git-cliff prints.
unfoldable pub bumped_version : String → Result String String
bumped_version printed = slice_one (trim_space printed)

-- What `Prepare` writes for a version: the file `VERSION`, and where the notes go.
unfoldable pub version_file : String → String
version_file version = version <> "\n"

unfoldable pub prepared_notes_path : String → String
prepared_notes_path version = join ("releases" ∷ ("v" <> (version <> ".md")) ∷ [])

-- What `Publish` makes of that file: the tag, and where it looks for the notes.
unfoldable pub published_tag : String → String
published_tag contents = "v" <> trim_space contents

unfoldable pub published_notes_path : String → String
unfolding published_tag
published_notes_path contents = join ("releases" ∷ (published_tag contents <> ".md") ∷ [])
