-- ===== src/Driver/Serving.antt =====
-- pkg/data/driver.go: `Run` from its listener on. It makes a ticker, starts three functions in a group, the pruner, the
-- server of the metrics and the gRPC server, and waits for the group.
pub mod Laws
use data_csi.Base.{
  ℕ, ◌+◌, ◌≡◌, Bool, true, false, Option, none, some, is_some, List, [], ◌∷◌, ◌++◌, String, Result,
  ok, err, ltb, if◌then◌else◌,
}
use data_csi.Base.Int.{ℤ, pos, negsuc}
use data_csi.Errors.{Error}
use data_csi.Host.{Host}
use data_csi.Identity.{IdentityServer}
use data_csi.Controller.{ControllerServer}
use data_csi.Node.Server.{NodeServer}
use data_csi.Driver.{Driver}
use data_csi.Driver.Run.{prune, open_listener}
use data_csi.Driver.Group.{Group}

module _ (H : Host) (G : Group) where
  -- The machine, the group, and which of its functions have not returned.
  pub record Serving : Type 0 where
    pub host : H.State
    pub group : G.State
    pub pruning : Bool
    pub serving_metrics : Bool
    pub serving_calls : Bool

  -- `errgroup.WithContext` and the three calls of `g.Go`.
  unfoldable pub started : H.State → Serving
  started h = record {
    host = h;
    group = G.go (G.go (G.go G.with_context));
    pruning = true;
    serving_metrics = true;
    serving_calls = true;
  }

-- The functions around each call of the gRPC server: `grpc_prometheus.UnaryServerInterceptor`, and
-- the driver's `errHandler`.
pub data Interceptor : Type 0 where
  counts_calls logs_calls : Interceptor

-- `d.srv` with what is registered at it, and the paths of the HTTP server.
pub record Server (H : Host) : Type 0 where
  pub interceptors : List Interceptor  -- the outermost first
  pub identity : IdentityServer
  pub controller : ControllerServer
  pub node : NodeServer H
  pub http_paths : List String

-- The servers that `Run` makes. The buckets of the metrics are left out.
unfoldable pub registered : {H : Host} → Driver H → Server H
registered d = record {
  interceptors = counts_calls ∷ logs_calls ∷ [];
  identity = d.ids;
  controller = d.cs;
  node = d.ns;
  http_paths = "/metrics" ∷ [];
}

-- How `Run` goes on from its listener: it returns an error, it panics, or it serves.
pub data Begun (H : Host) (G : Group) : Type 0 where
  returns : Error → Begun H G
  panics : String → Begun H G
  serves : Server H → Serving H G → Begun H G

-- Whether a duration is positive.
unfoldable pub is_positive : ℤ → Bool
is_positive (pos n) = ltb 0 n
is_positive (negsuc n) = false

module _ {H : Host} (G : Group) where
  -- `Run` with what the listener gives. `time.NewTicker` panics for a duration that is not positive.
  unfoldable pub begun : Driver H → Result Error (Unit {0}) × H.State → Begun H G × H.State
  begun d (err e, s) = (returns e, s)
  begun d (ok _, s) =
      if is_positive d.prune_period
      then (serves (registered d) (started H G s), s)
      else (panics "non-positive interval for NewTicker", s)

  -- `Run` up to `g.Wait()`
  unfoldable pub begin : Driver H → H.State → Begun H G × H.State
  begin d s = begun d (open_listener d s)

module _ {H : Host} {G : Group} where
  -- `g.Wait()`, which `Run` returns.
  unfoldable pub run_result : Serving H G → Option (Option Error)
  run_result s = G.wait s.group

  -- What happens: a tick prunes the cache, and the pruner goes on whatever comes of it; the pruner
  -- returns the error of the group's context once that is done; `ListenAndServe` and `Serve` return
  -- an error, the second because nothing stops the server; or the context of `Run` is done.
  pub data Turn (d : Driver H) (s : Serving H G) : List Error → Serving H G → Type 0 where
    ticks : s.pruning ≡ true → Turn d s [] (record s { host = (prune d s.host).1 })
    pruner_returns :
        (e : Error)
        → s.pruning ≡ true
        → G.context_error s.group ≡ some e
        → Turn d s (e ∷ []) (record s { pruning = false; group = G.returned (some e) s.group })
    metrics_return :
        (e : Error)
        → s.serving_metrics ≡ true
        → Turn d s
            (e ∷ [])
            (record s { serving_metrics = false; group = G.returned (some e) s.group })
    calls_return :
        (e : Error)
        → s.serving_calls ≡ true
        → Turn d s
            (e ∷ [])
            (record s { serving_calls = false; group = G.returned (some e) s.group })
    context_done :
        (e : Error)
        → G.context_error s.group ≡ none
        → Turn d s [] (record s { group = G.cancelled e s.group })

  -- The states that `Run` comes to, with the errors that its functions have returned, in order.
  pub data Reached (d : Driver H) (h : H.State) : List Error → Serving H G → Type 0 where
    start : Reached d h [] (started H G h)
    later :
        {errors more : List Error} {s t : Serving H G}
        → Reached d h errors s
        → Turn d s more t
        → Reached d h (errors ++ more) t
