-- ===== src/Driver.antt =====
-- pkg/data/driver.go: the driver, which holds the three services, opens the socket, logs each call
-- and prunes the cache.
pub mod Run
pub mod Group
pub mod Serving
pub mod Calls
pub mod Laws
use data_csi.Base.{
  String, ◌<>◌, ℕ, List, [], ◌∷◌, ◌++◌, Bool, true, false, Option, none, some, Result, ok, err,
  Exec, lift, map_error, pure, ◌>>=◌, ◌>>◌, ◌==◌, if◌then◌else◌,
}
use data_csi.Base.Int.{ℤ}
use data_csi.Errors.{Error, text, wrap, os_is_not_exist}
use data_csi.Host.{Host, Url}
use data_csi.Go.Filepath.{dir}
use data_csi.Identity.{IdentityServer, new_identity_server}
use data_csi.Controller.{ControllerServer, new_controller_server}
use data_csi.Node.Server.{NodeServer, new_node_server}

module _ (H : Host) where
  -- `Driver`, but for its gRPC server, which `Run` makes. The prune period is in
  -- nanoseconds.
  pub record Driver : Type 0 where
    pub endpoint : String
    pub prune_size : ℕ  -- uint64
    pub prune_period : ℤ  -- time.Duration
    pub telem_hosts : List H.Location
    pub telem_user_name : String
    pub ids : IdentityServer
    pub cs : ControllerServer
    pub ns : NodeServer H

  -- `NewDriver`. The services are made in this order, and the first panic is the outcome.
  unfoldable pub new_driver :
      String
      → String
      → String
      → String
      → String
      → ℕ
      → ℤ
      → List H.Location
      → String
      → Result String Driver
  unfolding new_identity_server new_controller_server new_node_server
  new_driver name node_id version endpoint storage_dir prune_size prune_period hosts user =
      elim (new_identity_server name version) [
        | err panic ↦ err panic
        | ok ids ↦ elim (new_controller_server name node_id) [
          | err panic ↦ err panic
          | ok cs ↦ elim (new_node_server H name node_id storage_dir hosts user) [
            | err panic ↦ err panic
            | ok ns ↦ ok (record {
              endpoint = endpoint;
              prune_size = prune_size;
              prune_period = prune_period;
              telem_hosts = hosts;
              telem_user_name = user;
              ids = ids;
              cs = cs;
              ns = ns;
            })
          ]
        ]
      ]

-- What `errHandler` logs: `debug` and `error` lines with the method and the stripped request.
pub data LogLine (Request Response : Type 0) : Type 0 where
  called : String → Request → LogLine Request Response
  failed : String → Error → Request → LogLine Request Response
  succeeded : String → Response → LogLine Request Response

-- The second line of `errHandler`, for what the handler returned.
unfoldable pub logged :
    {Stripped Response S : Type 0}
    → String
    → Stripped
    → List (LogLine Stripped Response)
    → (Response × Option Error) × S
    → (Response × Option Error) × (S × List (LogLine Stripped Response))
logged method req log ((resp, none), s) = ((resp, none), (s, log ++ (succeeded method resp ∷ [])))
logged method req log ((resp, some e), s) = ((resp, some e), (s, log ++ (failed method e req ∷ [])))

-- `errHandler`, around any handler on any state. `strip` is `protosanitizer.StripSecrets`. A
-- handler gives a response beside the error too, as in Go.
unfoldable pub err_handler :
    {Request Stripped Response S : Type 0}
    → (Request → Stripped)
    → String
    → (Request → S → (Response × Option Error) × S)
    → Request
    → S × List (LogLine Stripped Response)
    → (Response × Option Error) × (S × List (LogLine Stripped Response))
err_handler strip method handler req (s, log) =
    logged method (strip req) (log ++ (called method (strip req) ∷ [])) (handler req s)
