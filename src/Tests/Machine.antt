-- ===== src/Tests/Machine.antt =====
-- A machine for the tests: the directories that are there, the number of mounts at each path, and how
-- often a path was removed with a mount in place.
-- The transfers succeed, and the decoders know the texts of the tests.
use data_csi.Base.{
  String, ◌<>◌, ℕ, ◌+◌, ◌-◌, List, [], ◌∷◌, Bool, true, false, not, ◌&&◌, ◌||◌, Result, ok, err,
  ◌==◌, eq_iff, ◌=ℕ◌, if◌then◌else◌, arith, refl, Bool-cases, inl, inr,
}
use data_csi.Errors.{Error, text, system, is_not_exist}
use data_csi.Host.{Host, FileMode, directory, Credential}
use data_csi.Host.Laws.{View, MountLaws, LossLaws, RemovalLaws, AbsenceLaws}

pub record Disk : Type 0 where
  pub mounted : String → ℕ
  pub there : String → Bool
  -- What was lost by removals at a path with a mount.
  pub lost : String → ℕ

-- A path is there if it was made, or if something is mounted at it.
unfoldable pub is_there : Disk → String → Bool
is_there s p = s.there p || not (s.mounted p =ℕ 0)

unfoldable pub disk_stat : String → Disk → Result Error FileMode
disk_stat p s = if is_there s p then ok directory else err (system true "no such file")

unfoldable pub disk_mkdir_all : String → ℕ → Disk → Result Error (Unit {0}) × Disk
disk_mkdir_all p mode s = (ok tt, record s { there = λ q. (p == q) || s.there q })

unfoldable pub disk_remove_all : String → Disk → Result Error (Unit {0}) × Disk
disk_remove_all p s =
    if is_there s p
    then if s.mounted p =ℕ 0
      then (ok tt, record s { there = λ q. not (p == q) && s.there q })
      else (
        err (system false "device or resource busy"),
        record s { lost = λ q. if p == q then s.lost q + 1 else s.lost q },
      )
    else (ok tt, s)

unfoldable pub disk_test : String → Disk → Result Error Bool
disk_test p s = if is_there s p then ok (s.mounted p =ℕ 0) else err (system true "no such file")

unfoldable pub disk_mount :
    String → String → String → List String → Disk → Result Error (Unit {0}) × Disk
disk_mount source p fs_type options s =
    if is_there s p
    then (ok tt, record s { mounted = λ q. if p == q then s.mounted q + 1 else s.mounted q })
    else (err (system true "no such file"), s)

unfoldable pub disk_unmount : String → Disk → Result Error (Unit {0}) × Disk
disk_unmount p s =
    if s.mounted p =ℕ 0
    then (err (text "not mounted"), s)
    else (ok tt, record s { mounted = λ q. if p == q then s.mounted q - 1 else s.mounted q })

unfoldable pub decode_auth : String → Result Error String
decode_auth s =
    if s == "dTpw"
    then ok "u:p"
    else if s == "dTpwOnE="
    then ok "u:p:q"
    else err (text "illegal base64 data")

abbrev pub machine : Host
machine = record {
  types = record {
    State = Disk;
    Time = Unit {0};
    Location = String;
    CredentialStore = List (String × Credential);
    Source = String;
    Descriptor = String;
    TelemetryEvent = String;
    KubeConfig = Unit {0};
    KubeClient = Unit {0};
  };
  stat = disk_stat;
  mkdir_all = disk_mkdir_all;
  remove_all = disk_remove_all;
  remove = disk_remove_all;
  is_not_mount_point = disk_test;
  mount = disk_mount;
  unmount = disk_unmount;
  now = λ s. tt;
  since = λ t s. "1s";
  decode_config = λ s. ok (record {
    auth_configs = ("registry", record { username = ""; password = ""; auth = "dTpw" }) ∷ [];
  });
  decode_base64 = decode_auth;
  new_memory_store = [];
  put = λ registry c store. ok ((registry, c) ∷ store);
  resolve_with_telemetry = λ c ref cache s. (ok (ref, "digest", "event"), s);
  pull = λ src desc p o s. disk_mkdir_all p 0o750 s;
  notify_telemetry = λ hosts user src desc p ev s. (ok "url", s);
  prune_cache = λ dir size s. (ok tt, s);
  parse_url = λ s. ok (record { scheme = "unix"; host = ""; path = "/csi.sock" });
  listen = λ scheme address s. (ok tt, s);
  in_cluster_config = err (text "not in a cluster");
  new_for_config = λ c. ok tt;
  status_text = λ s. "rpc error: " <> s.message;
}

abbrev pub view : View machine
view = record { depth = λ s. s.mounted; present = is_there }

pub mount_laws : MountLaws view
unfolding disk_test disk_mount disk_unmount disk_mkdir_all disk_remove_all is_there is_not_exist
mount_laws = record {
  test_ok = λ p s b h. ground arith;
  test_missing = λ p s e h m. ground arith;
  depth-mount = λ source p fs_type options s q. ground arith;
  depth-unmount = λ p s q. ground (arith, eq_iff p q);
  depth-mkdir_all = λ p mode s q. refl;
  depth-remove_all = λ p s q. ground arith;
  depth-resolve = λ c ref cache s q. refl;
  depth-pull = λ src desc p o s q. refl;
  depth-notify = λ hosts user src desc p ev s q. refl;
}

pub removal_laws : RemovalLaws view
unfolding disk_stat disk_remove_all is_there is_not_exist
removal_laws = record {
  removed = λ p s d h. ground (arith, eq_iff p p);
  removed_missing = λ p s e h m. ground arith;
  absent-remove_all = λ p s q h. ground (arith, eq_iff p q);
  stat_missing = λ p s e h m. ground arith;
}

pub absence_laws : AbsenceLaws view
unfolding disk_stat disk_remove_all disk_test is_there is_not_exist
absence_laws = record {
  test_absent = λ p s h. (system true "no such file", ground arith, refl);
  stat_absent = λ p s h. (system true "no such file", ground arith);
  remove_absent = λ p s h. ground arith;
}

-- A removal reaches a path from the path itself and from the root.
abbrev pub reaches : String → String → Bool
reaches p q = (p == q) || (p == "/")

pub loss_laws : (q : String) → LossLaws view reaches q (λ s. s.lost q)
unfolding disk_mount disk_unmount disk_mkdir_all disk_remove_all is_there
loss_laws q = record {
  untouched = record {
    mkdir_all = λ p mode s. omega arith;
    resolve = λ c ref cache s. omega arith;
    pull = λ src desc p o s. omega arith;
    notify = λ hosts user src desc p ev s. omega arith;
  };
  lost-mount = λ source p fs_type options s. ground arith;
  lost-unmount = λ p s. ground arith;
  lost-remove_all = λ p s h. elim (Bool-cases (p == q)) [
    | inl e ↦ let d = h (ground arith) in ground (arith, eq_iff p q)
    | inr n ↦ ground arith
  ];
}
