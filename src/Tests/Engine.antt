-- ===== src/Tests/Engine.antt =====
-- A small SDK of containers, for which the laws hold: a file is its text, a directory a function from
-- paths, and a container answers by its last command.
use mathlib.Core.List.Perm
use data_csi.Base.{
  String, ◌<>◌, ◌≡◌, ◌↔◌, refl, ap, true, false, List, [], ◌∷◌, Option, none, some, Result, ok, err,
  is_ok, All, ◌==◌, eq_iff, if◌then◌else◌, arith, Bool-cases, inl, inr,
}
use data_csi.Errors.{Error}
use data_csi.Go.Strings.{split}
use data_csi.Build.Sdk.{Kinds, Sdk}
use data_csi.Build.Sdk.Laws.{SdkLaws, apart, values}

abbrev pub set : {A : Type 0} → (String → A) → String → A → String → A
set f k v x = if x == k then v else f x

-- What a container is asked about.
pub record Box : Type 0 where
  pub labels : String → String
  pub variables : String → String
  pub files : String → String
  pub directories : String → String → String
  pub entry : List String
  pub cwd : String
  pub on : String
  pub last : List String

abbrev pub empty_box : Box
empty_box = record {
  labels = λ k. "";
  variables = λ k. "";
  files = λ p. "";
  directories = λ p q. "";
  entry = [];
  cwd = "/";
  on = "";
  last = [];
}

abbrev pub engine_kinds : Kinds
engine_kinds = record {
  Container = Box;
  Directory = String → String;
  File = String;
  Secret = String;
  CacheVolume = String;
  RegistryConfig = List (String × String × String);
  GoSource = String → String;
  Helm = List String;
  HelmChart = String → String;
  HelmPackage = String → String;
}

-- git-cliff is asked for the next version or for notes.
abbrev pub printed_by : List String → String
printed_by [] = ""
printed_by (program ∷ []) = ""
printed_by (program ∷ option ∷ _) =
    if option == "--bumped-version" then "v1.2.3\n" else "### Fixes\n"

abbrev pub first_error : {A : Type 0} → List (Result Error A) → Option Error
first_error [] = none
first_error (ok a ∷ rs) = first_error rs
first_error (err e ∷ rs) = some e

abbrev pub engine : Sdk
engine = record {
  kinds = engine_kinds;
  container = empty_box;
  container_on = λ p. record empty_box { on = p };
  from = λ i c. c;
  with_file = λ p f c. record c { files = set c.files p f };
  with_directory = λ p d c. record c { directories = set c.directories p d };
  with_mounted_directory = λ p d c. record c { directories = set c.directories p d };
  with_mounted_cache = λ p v c. c;
  with_mounted_secret = λ p x c. c;
  with_env_variable = λ k v c. record c { variables = set c.variables k v };
  with_secret_variable = λ k x c. c;
  with_workdir = λ p c. record c { cwd = p };
  with_user = λ u c. c;
  with_label = λ k v c. record c { labels = set c.labels k v };
  with_entrypoint = λ a c. record c { entry = a };
  with_exec = λ a c. record c { last = a };
  file = λ p c. c.files p;
  directory = λ p c. c.directories p;
  env_variable = λ k c. c.variables k;
  label = λ k c. c.labels k;
  entrypoint = λ c. c.entry;
  workdir = λ c. c.cwd;
  platform = λ c. c.on;
  stdout = λ c. ok (printed_by c.last);
  publish = λ address variants c. ok address;
  new_directory = λ p. "";
  add_file = λ p f d. set d p f;
  add_new_file = λ p f d. set d p f;
  file_in = λ p d. d p;
  directory_in = λ p d q. d (p <> ("/" <> q));
  entries = λ d. ok ("release.sh" ∷ []);
  contents = λ f. ok f;
  cache_volume = λ k. k;
  registry_config = [];
  add_registry_auth = λ a u x r. (a, u, x) ∷ r;
  remove_registry_auth = λ a r. r;
  registry_secret = λ r. "";
  go_source = λ d. d;
  without_cgo = λ d. d;
  go_exec = λ a d. record empty_box { last = a };
  go_container = λ d. empty_box;
  golangci_run = λ t d. empty_box;
  helm = [];
  helm_with_registry_auth = λ a u x h. a ∷ h;
  helm_lint = λ d h. empty_box;
  helm_chart = λ d h. d;
  helm_package = λ update d. d;
  publish_package = λ repo d. ok tt;
  shellcheck = λ f. ok tt;
  wolfi = λ packages. empty_box;
  wait = λ rs. (values rs, first_error rs);
  parse_reference = λ a. ok (record { registry = "ghcr.io"; repository = "act3-ai/csi-bottle" });
}

set-here : {A : Type 0} (f : String → A) (k : String) (v : A) → set f k v k ≡ v
set-here f k v = rw ((eq_iff k k).1 refl) refl

apart-irreflexive : (ps : List String) → apart ps ps ≡ false
apart-irreflexive [] = refl
apart-irreflexive (p ∷ ps) = rw ((eq_iff p p).1 refl) (apart-irreflexive ps)

set-apart :
    {A : Type 0} (f : String → A) (p q : String) (v : A)
    → apart (split b'/' p) (split b'/' q) ≡ true
    → set f q v p ≡ f p
set-apart f p q v h = elim (Bool-cases (p == q)) [
  | inl e ↦
      let same = (eq_iff p q).0 e in
      let never : apart (split b'/' q) (split b'/' q) ≡ true = rw same at h in
      absurd (ground (arith, apart-irreflexive (split b'/' q)))
  | inr e ↦ rw e refl
]

first_error-none :
    {A : Type 0} (rs : List (Result Error A))
    → (first_error rs ≡ none) ↔ All (λ r. is_ok r ≡ true) rs
first_error-none [] = (λ e. tt, λ h. refl)
first_error-none (ok a ∷ rs) =
    let (to, of) = first_error-none rs in (λ e. (refl, to e), λ h. of h.1)
first_error-none (err e ∷ rs) = (λ h. cc, λ h. let (passes, _) = h in cc (passes))

pub engine_laws : SdkLaws engine
engine_laws = record {
  label-with_label = λ k name value c. refl;
  env_variable-with_env_variable = λ k name value c. refl;
  env_variable-with_mounted_cache = λ k p v c. refl;
  env_variable-with_mounted_directory = λ k p d c. refl;
  env_variable-with_workdir = λ k p c. refl;
  workdir-with_workdir = λ p c h. refl;
  workdir-with_env_variable = λ name value c. refl;
  workdir-with_secret_variable = λ name x c. refl;
  workdir-with_label = λ name value c. refl;
  directory-with_mounted_directory = λ p d c. set-here c.directories p d;
  directory-with_workdir = λ p q c h. refl;
  directory-with_env_variable = λ p name value c. refl;
  directory-with_secret_variable = λ p name x c. refl;
  file-with_file = λ p f c. set-here c.files p f;
  file-with_entrypoint = λ p a c. refl;
  file-with_workdir = λ p q c h. refl;
  file-with_label = λ p name value c. refl;
  entrypoint-with_entrypoint = λ a c. refl;
  entrypoint-with_workdir = λ p c. refl;
  entrypoint-with_label = λ name value c. refl;
  platform-container_on = λ p. refl;
  platform-from = λ i c. refl;
  platform-with_file = λ p f c. refl;
  platform-with_entrypoint = λ a c. refl;
  platform-with_workdir = λ p c. refl;
  platform-with_label = λ name value c. refl;
  file_in-add_file = λ p f d. set-here d p f;
  file_in-add_file-apart = λ p q f d h. set-apart d p q f h;
  contents-add_new_file = λ p text d. ap ok (set-here d p text);
  file_in-add_new_file-apart = λ p q text d h. set-apart d p q text h;
  file_in-directory_in = λ p q d. refl;
  wait-values = λ rs. Perm.refl (values rs);
  wait-error = λ rs. first_error-none rs;
}
