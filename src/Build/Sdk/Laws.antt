-- ===== src/Build/Sdk/Laws.antt =====
-- What the theorems on the pipelines assume of the SDK: its documentation of each question about what
-- a chain of calls has made, and of the pools.
use mathlib.Core.List.{Perm}
use data_csi.Base.{
  String, ◌<>◌, ◌≡◌, ◌↔◌, Bool, true, false, List, [], ◌∷◌, none, Result, ok, err, is_ok, All, ◌==◌,
  if◌then◌else◌,
}
use data_csi.Errors.{Error}
use data_csi.Go.Strings.{split}
use data_csi.Go.Filepath.{is_abs}
use data_csi.Build.Sdk.{Sdk}

-- Whether two paths part at some element, so that neither lies below the other.
abbrev pub apart : List String → List String → Bool
apart [] qs = false
apart (p ∷ ps) [] = false
apart (p ∷ ps) (q ∷ qs) = if p == q then apart ps qs else true

-- The values of the calls that returned one.
abbrev pub values : {A : Type 0} → List (Result Error A) → List A
values [] = []
values (ok a ∷ rs) = a ∷ values rs
values (err e ∷ rs) = values rs

pub record SdkLaws (S : Sdk) : Type 1 where
  -- "Retrieves this container with the given label", and so on for variables
  pub label-with_label :
      (k name value : String) (c : S.Container)
      → S.label k (S.with_label name value c) ≡ (if k == name then value else S.label k c)
  pub env_variable-with_env_variable :
      (k name value : String) (c : S.Container)
      → S.env_variable k (S.with_env_variable name value c)
        ≡ (if k == name then value else S.env_variable k c)
  pub env_variable-with_mounted_cache :
      (k p : String) (v : S.CacheVolume) (c : S.Container)
      → S.env_variable k (S.with_mounted_cache p v c) ≡ S.env_variable k c
  pub env_variable-with_mounted_directory :
      (k p : String) (d : S.Directory) (c : S.Container)
      → S.env_variable k (S.with_mounted_directory p d c) ≡ S.env_variable k c
  pub env_variable-with_workdir :
      (k p : String) (c : S.Container) → S.env_variable k (S.with_workdir p c) ≡ S.env_variable k c
  pub workdir-with_workdir :
      (p : String) (c : S.Container) → is_abs p ≡ true → S.workdir (S.with_workdir p c) ≡ p
  pub workdir-with_env_variable :
      (name value : String) (c : S.Container)
      → S.workdir (S.with_env_variable name value c) ≡ S.workdir c
  pub workdir-with_secret_variable :
      (name : String) (x : S.Secret) (c : S.Container)
      → S.workdir (S.with_secret_variable name x c) ≡ S.workdir c
  pub workdir-with_label :
      (name value : String) (c : S.Container) → S.workdir (S.with_label name value c) ≡ S.workdir c
  -- a part of a container, at an absolute path
  pub directory-with_mounted_directory :
      (p : String) (d : S.Directory) (c : S.Container)
      → S.directory p (S.with_mounted_directory p d c) ≡ d
  pub directory-with_workdir :
      (p q : String) (c : S.Container)
      → is_abs p ≡ true
      → S.directory p (S.with_workdir q c) ≡ S.directory p c
  pub directory-with_env_variable :
      (p name value : String) (c : S.Container)
      → S.directory p (S.with_env_variable name value c) ≡ S.directory p c
  pub directory-with_secret_variable :
      (p name : String) (x : S.Secret) (c : S.Container)
      → S.directory p (S.with_secret_variable name x c) ≡ S.directory p c
  pub file-with_file :
      (p : String) (f : S.File) (c : S.Container) → S.file p (S.with_file p f c) ≡ f
  pub file-with_entrypoint :
      (p : String) (a : List String) (c : S.Container)
      → S.file p (S.with_entrypoint a c) ≡ S.file p c
  pub file-with_workdir :
      (p q : String) (c : S.Container)
      → is_abs p ≡ true
      → S.file p (S.with_workdir q c) ≡ S.file p c
  pub file-with_label :
      (p name value : String) (c : S.Container) → S.file p (S.with_label name value c) ≡ S.file p c
  pub entrypoint-with_entrypoint :
      (a : List String) (c : S.Container) → S.entrypoint (S.with_entrypoint a c) ≡ a
  pub entrypoint-with_workdir :
      (p : String) (c : S.Container) → S.entrypoint (S.with_workdir p c) ≡ S.entrypoint c
  pub entrypoint-with_label :
      (name value : String) (c : S.Container)
      → S.entrypoint (S.with_label name value c) ≡ S.entrypoint c
  pub platform-container_on : (p : String) → S.platform (S.container_on p) ≡ p
  pub platform-from : (i : String) (c : S.Container) → S.platform (S.from i c) ≡ S.platform c
  pub platform-with_file :
      (p : String) (f : S.File) (c : S.Container) → S.platform (S.with_file p f c) ≡ S.platform c
  pub platform-with_entrypoint :
      (a : List String) (c : S.Container) → S.platform (S.with_entrypoint a c) ≡ S.platform c
  pub platform-with_workdir :
      (p : String) (c : S.Container) → S.platform (S.with_workdir p c) ≡ S.platform c
  pub platform-with_label :
      (name value : String) (c : S.Container)
      → S.platform (S.with_label name value c) ≡ S.platform c
  -- a file of a directory: the one put there, else what was there
  pub file_in-add_file :
      (p : String) (f : S.File) (d : S.Directory) → S.file_in p (S.add_file p f d) ≡ f
  pub file_in-add_file-apart :
      (p q : String) (f : S.File) (d : S.Directory)
      → apart (split b'/' p) (split b'/' q) ≡ true
      → S.file_in p (S.add_file q f d) ≡ S.file_in p d
  pub contents-add_new_file :
      (p text : String) (d : S.Directory)
      → S.contents (S.file_in p (S.add_new_file p text d)) ≡ ok text
  pub file_in-add_new_file-apart :
      (p q text : String) (d : S.Directory)
      → apart (split b'/' p) (split b'/' q) ≡ true
      → S.file_in p (S.add_new_file q text d) ≡ S.file_in p d
  pub file_in-directory_in :
      (p q : String) (d : S.Directory)
      → S.file_in q (S.directory_in p d) ≡ S.file_in (p <> ("/" <> q)) d
  -- "Wait cleans up all spawned goroutines, propagates any panics, and returns an error if any of the
  -- tasks errored"; results come in no particular order, and those of failed functions are left out.
  pub wait-values : {A : Type 0} (rs : List (Result Error A)) → Perm (S.wait rs).0 (values rs)
  pub wait-error :
      {A : Type 0} (rs : List (Result Error A))
      → ((S.wait rs).1 ≡ none) ↔ All (λ r. is_ok r ≡ true) rs
