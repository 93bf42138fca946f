-- ===== src/Driver/Laws.antt =====
-- What holds of the driver: how it is made, on what it listens, what its pruner and its log do.
use Prim.Native.Nat.{ℕ, ◌+◌, zero, suc, ◌<◌, ◌≤◌, ◌^◌, ◌-◌}
use mathlib.Core.List.{append_assoc}
use data_csi.Base.{
  String, ◌≡◌, ◌≢◌, ◌↔◌, refl, true, Bool-cases, List, [], ◌∷◌, ◌++◌, Option, none, some, ok, err,
  is_ok, arith, ltb, ◌==◌, eq_iff, eq-false_of_ne, inl, inr, ◌⊎◌, Result-cases, Option-cases,
}
use data_csi.Base.Int.{ℤ, pos, negsuc, int64}
use data_csi.Errors.{Error, os_is_not_exist}
use data_csi.Csi.{CreateVolumeRequest}
use data_csi.Host.{Host, Url}
use data_csi.Go.Filepath.{dir}
use data_csi.Identity.{get_plugin_info}
use data_csi.Controller.{created}
use data_csi.Node.Server.{node_get_info}
use data_csi.Driver.{Driver, new_driver, LogLine, called, failed, succeeded, logged, err_handler}
use data_csi.Driver.Run.{Signal, tick, done, address, open_listener, prune, pruner}

module _ (H : Host) (name node_id version endpoint storage_dir : String) (size : ℕ) (period : ℤ)
    (hosts : List H.Location) (user : String) where
  -- The driver is made exactly for a name, a version and a node id that are not empty, and then its
  -- three services carry that name, and the two that have a node id that one.
  pub new_driver_decides :
      let made = new_driver H name node_id version endpoint storage_dir size period hosts user in
      ((name ≢ "")
        × (version ≢ "")
        × (node_id ≢ "")
        × ((d : Driver H) × (made ≡ ok d)
            × ((d.ids.name ≡ name) × (d.cs.name ≡ name) × (d.ns.name ≡ name))
            × ((d.ids.version ≡ version) × (d.cs.node_id ≡ node_id) × (d.ns.node_id ≡ node_id))))
      ⊎ ((¬ ((name ≢ "") × (version ≢ "") × (node_id ≢ "")))
          × ((text : String) × (made ≡ err text)))
  unfolding new_driver
  new_driver_decides =
      elim (Result-cases
        (new_driver H name node_id version endpoint storage_dir size period hosts user)) [
          | inl (d, p) ↦ inl (
            λ q. ground (arith, eq_iff name ""),
            λ q. ground (arith, eq_iff version ""),
            λ q. ground (arith, eq_iff node_id ""),
            (d, p, ground arith, ground arith),
          )
          | inr (text, p) ↦ inr (
            λ (n, v, i). ground (
              arith,
              eq-false_of_ne name "" n,
              eq-false_of_ne version "" v,
              eq-false_of_ne node_id "" i,
            ),
            (text, p),
          )
        ]

  -- A volume is created for the topology that the driver's node service reports, and no other, and
  -- its segment is under the plugin's own name.
  pub created_topology :
      (d : Driver H) (uuid : String) (req : CreateVolumeRequest)
      → new_driver H name node_id version endpoint storage_dir size period hosts user ≡ ok d
      → ((created d.cs uuid req).accessible_topology
          ≡ (node_get_info d.ns).accessible_topology ∷ [])
        × ((node_get_info d.ns).accessible_topology
            ≡ ((get_plugin_info d.ids).name, (node_get_info d.ns).node_id) ∷ [])
  unfolding new_driver created node_get_info get_plugin_info
  created_topology d uuid req h = ground arith

module _ {H : Host} (d : Driver H) where
  -- A listener that is opened stands on a `unix` or a `tcp` endpoint. For `unix` the old socket was
  -- removed, or was not there, and its directory was found, before the path was listened on; for
  -- `tcp` nothing was done before the host was listened on.
  pub open_listener_ok :
      (s : H.State)
      → is_ok (open_listener d s).0 ≡ true
      → (u : Url) × (H.parse_url d.endpoint ≡ ok u)
        × (((u.scheme ≡ "unix")
              × (let (r, s') = H.remove u.path s in
                  ((e : Error) → r ≡ err e → os_is_not_exist e ≡ true)
                  × (is_ok (H.stat (dir u.path) s') ≡ true)
                  × (open_listener d s ≡ (ok tt, (H.listen "unix" u.path s').1))))
            ⊎ ((u.scheme ≡ "tcp") × (open_listener d s ≡ (ok tt, (H.listen "tcp" u.host s).1))))
  unfolding open_listener address
  open_listener_ok s h = elim (Result-cases (H.parse_url d.endpoint)) [
    | inr (e, p) ↦ absurd (ground arith)
    | inl (u, p) ↦ elim (Bool-cases (u.scheme == "unix")) [
      | inl x ↦
          let scheme = (eq_iff u.scheme "unix").0 x in
          (u, p, inl (scheme, (λ e q. ground arith, ground arith, ground arith)))
      | inr x ↦
          (u, p, inr (ground (arith, eq_iff u.scheme "tcp"), ground (arith, eq_iff u.scheme "tcp")))
    ]
  ]

  -- The state after `n` prunes.
  abbrev pub pruned : ℕ → H.State → H.State
  pruned zero s = s
  pruned (suc n) s = pruned n (prune d s).1

  -- The ticks before the context is done, and the error that it is done with.
  abbrev pub ticks : List Signal → ℕ
  ticks [] = 0
  ticks (tick ∷ signals) = suc (ticks signals)
  ticks (done e ∷ signals) = 0

  abbrev pub stop : List Signal → Option Error
  stop [] = none
  stop (tick ∷ signals) = stop signals
  stop (done e ∷ signals) = some e

  -- The pruner prunes once for each tick before the context is done, whether prunes fail or not,
  -- and returns exactly when the context is done, with the error of that.
  pub pruner_lem :
      (signals : List Signal) (s : H.State)
      → pruner d signals s ≡ (stop signals, pruned (ticks signals) s)
  unfolding pruner
  pruner_lem [] s = refl
  pruner_lem (tick ∷ signals) s = pruner_lem signals (prune d s).1
  pruner_lem (done e ∷ signals) s = refl

int64_exact :
    (size : ℕ)
    → size < 2 ^ 64
    → ((int64 size ≡ pos size) ↔ (size < 2 ^ 63))
      × (2 ^ 63 ≤ size → (n : ℕ) × (int64 size ≡ negsuc n) × (n + 1 + size ≡ 2 ^ 64))
unfolding int64
int64_exact size b =
    ((λ e. ground arith, λ h. ground arith), λ h. (2 ^ 64 - 1 - size, ground arith, omega arith))

-- A prune is one call of the cache's `Prune` on the cache of the node service, with its outcome, and
-- leaves what that leaves. The limit is the configured size, where that is below 2^63; from there on,
-- for a size of 64 bits, it is negative: the size less 2^64.
pub prune-prune_cache :
    {H : Host} (d : Driver H) (s : H.State)
    → d.prune_size < 2 ^ 64
    → (limit : ℤ) × (((d.prune_size < 2 ^ 63) × (limit ≡ pos d.prune_size))
        ⊎ ((2 ^ 63 ≤ d.prune_size)
            × ((n : ℕ) × (limit ≡ negsuc n) × (n + 1 + d.prune_size ≡ 2 ^ 64))))
      × (let (r, left) = H.prune_cache d.ns.cache_dir limit s in
          ((prune d s).1 ≡ left) × (is_ok (prune d s).0 ≡ is_ok r))
unfolding prune
prune-prune_cache {H} d s b =
    let (same, over) = int64_exact d.prune_size b in
    (
      int64 d.prune_size,
      elim (Bool-cases (ltb d.prune_size (2 ^ 63))) [
        | inl l ↦ let small : d.prune_size < 2 ^ 63 = ground arith in inl (small, same.1 small)
        | inr l ↦ let big : 2 ^ 63 ≤ d.prune_size = ground arith in inr (big, over big)
      ],
      (ground arith, ground arith),
    )

-- The wrapper returns what the handler returns, response and error, leaves the state that the
-- handler leaves, and adds two lines to the log: the call, then its failure or success. A line with
-- the request has the stripped one.
pub err_handler_lem :
    {Request Stripped Response S : Type 0} (strip : Request → Stripped) (method : String)
    (handler : Request → S → (Response × Option Error) × S) (req : Request) (s : S)
    (log : List (LogLine Stripped Response))
    → let (answer, (s', log')) = err_handler strip method handler req (s, log) in
      ((answer, s') ≡ handler req s)
      × ((last : LogLine Stripped Response) × (log'
            ≡ log ++ (called method (strip req) ∷ last ∷ []))
          × (((e : Error) × (answer.1 ≡ some e) × (last ≡ failed method e (strip req)))
              ⊎ ((answer.1 ≡ none) × (last ≡ succeeded method answer.0))))
unfolding err_handler logged
err_handler_lem strip method handler req s log = elim (Option-cases (handler req s).0.1) [
  | inl (e, p) ↦
      let last = failed method e (strip req) in
      (
        ground arith,
        (
          last,
          ground (arith, append_assoc log (called method (strip req) ∷ []) (last ∷ [])),
          inl (e, ground arith, refl),
        ),
      )
  | inr p ↦
      let last = succeeded method (handler req s).0.0 in
      (
        ground arith,
        (
          last,
          ground (arith, append_assoc log (called method (strip req) ∷ []) (last ∷ [])),
          inr (ground arith, ground arith),
        ),
      )
]
