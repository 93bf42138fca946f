-- ===== src/Cli/Laws.antt =====
-- What `serve` and `checkpath` do with their arguments.
use mathlib.Core.Bool.{false≢true}
use data_csi.Base.{
  ap, String, ℕ, ◌*◌, ◌≡◌, ◌≢◌, ◌↔◌, refl, true, false, Bool-cases, [], ◌∷◌, Result, ok, err, arith,
  ◌==◌, eq_iff, if◌then◌else◌, inl, inr, Result-cases, eq-false_of_ne,
}
use data_csi.Base.Int.{pos}
use data_csi.Errors.{Error, os_is_not_exist}
use data_csi.Host.{Host, FileMode, regular, directory, other_mode}
use data_csi.Driver.{Driver, new_driver}
use data_csi.Go.Filepath.{join, clean, elements, walk, keep, up, stack_text, render, is_abs}
use data_csi.Go.Strings.{join_with, split}
use data_csi.Cli.{mode_word, check_path, ServeFlags, default_flags, runs, telem_hosts, serve}

written : (m : FileMode) → mode_word m ≢ "not_found"
unfolding mode_word ◌==◌
written regular e = false≢true (ap (λ t. t == "not_found") e)
written directory e = false≢true (ap (λ t. t == "not_found") e)
written other_mode e = false≢true (ap (λ t. t == "not_found") e)

-- The command says that a path is not there exactly if `os.Stat` fails because it is not, and it
-- fails exactly where `os.Stat` fails for another reason, with the error of `os.Stat`.
pub check_path_exact :
    (H : Host) (path : String) (s : H.State)
    → ((check_path H path s ≡ ok "not_found")
        ↔ ((e : Error) × (H.stat path s ≡ err e) × (os_is_not_exist e ≡ true)))
      × ((e : Error)
          → (check_path H path s ≡ err e) ↔ ((H.stat path s ≡ err e) × (os_is_not_exist e ≡ false)))
unfolding check_path
check_path_exact H path s = (
  (
    λ h. elim (Result-cases (H.stat path s)) [
      | inl (m, p) ↦ absurd (written m (ground arith))
      | inr (e, p) ↦ elim (Bool-cases (os_is_not_exist e)) [
        | inl t ↦ (e, p, t)
        | inr f ↦ absurd (ground arith)
      ]
    ],
    λ (e, p, m). ground arith,
  ),
  λ e. (λ h. ground arith, λ (p, m). ground arith),
)

module _ (H : Host) (parse_bytes : String → Result Error ℕ) (location : String → H.Location) where
  dir : join ("/tmp/csi/data" ∷ "ephemeral" ∷ "staging" ∷ []) ≡ "/tmp/csi/data/ephemeral/staging"
  unfolding join clean elements walk keep up stack_text render is_abs join_with split ◌==◌
  dir = refl

  -- With no variable set and no flag given, a version, and a default size that is read, the
  -- command runs a driver; it has no telemetry server, and ephemeral volumes lie below
  -- `/tmp/csi/data/ephemeral/staging`.
  pub serve_defaults :
      (version : String) {size : ℕ}
      → version ≢ ""
      → parse_bytes "10Gi" ≡ ok size
      → let flags = default_flags (λ variable value. value) (λ variable value. value) in
        (d : Driver H) × (serve H parse_bytes location version flags ≡ runs d)
        × (d.telem_hosts ≡ [])
        × (d.ns.ephemeral_staging_dir ≡ "/tmp/csi/data/ephemeral/staging")
  unfolding serve default_flags new_driver ◌==◌
  serve_defaults version {size} v p =
      elim (Result-cases (
        new_driver H "bottle.csi.act3-ace.io" "nodeid" version "unix:///tmp/csi/csi.sock"
          "/tmp/csi/data" size (pos (24 * 3600000000000)) [] "")) [
            | inl (d, q) ↦ (d, ground arith, ground arith, ground (arith, dir))
            | inr (t, q) ↦ absurd (ground (arith, eq-false_of_ne version "" v))
          ]

  -- A driver that the command runs prunes to the size that was read from the flag, and has the
  -- telemetry server of the flag, in the driver and in its node service alike, with the user
  -- `csi-driver` if there is one. The name, the node id and the version are not empty.
  pub serve_runs :
      (version : String) (flags : ServeFlags) (d : Driver H)
      → serve H parse_bytes location version flags ≡ runs d
      → (parse_bytes flags.prune_size ≡ ok d.prune_size)
        × (d.telem_hosts ≡ telem_hosts H parse_bytes location flags.telemetry_url)
        × (d.ns.telem_hosts ≡ d.telem_hosts)
        × (d.ns.telem_user_name ≡ (if flags.telemetry_url == "" then "" else "csi-driver"))
        × ((flags.name ≢ "") × (flags.node_id ≢ "") × (version ≢ ""))
  unfolding serve new_driver
  serve_runs version flags d h =
      ground (arith, eq_iff flags.name "", eq_iff flags.node_id "", eq_iff version "")

module _ (H : Host) (parse_bytes : String → Result Error ℕ) (location : String → H.Location) where
  pub prune_period-serve :
      (version : String) (flags : ServeFlags) (d : Driver H)
      → serve H parse_bytes location version flags ≡ runs d
      → d.prune_period ≡ flags.prune_period
  unfolding serve new_driver
  prune_period-serve version flags d e = ground arith
