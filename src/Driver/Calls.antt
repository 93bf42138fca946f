-- ===== src/Driver/Calls.antt =====
-- pkg/data/driver.go: the calls that the gRPC server of `Run` hands to the three services, each inside
-- of `errHandler`, one after another. `protosanitizer.StripSecrets` and the names that the generated
-- code gives to methods are parameters. The controller and the node service keep their state apart.
pub mod Laws
use data_csi.Base.{List, [], ◌∷◌, String, Option, none, some, Result, ok, err}
use data_csi.Errors.{Error, Status, status}
use data_csi.Csi.{
  Volume, Confirmed, GetPluginInfoResponse, NodeGetInfoResponse, PluginCapability,
  ControllerServiceCapability, NodeServiceCapability,
}
use data_csi.Host.{Host}
use data_csi.Identity as Identity
use data_csi.Controller as Controller
use data_csi.Controller.{Volumes}
use data_csi.Controller.History as History
use data_csi.Node.Server as Node
use data_csi.Node.Server.{World}
use data_csi.Node.Lifecycle as Lifecycle
use data_csi.Driver.{LogLine, err_handler}
use data_csi.Driver.Serving.{Server}

-- A request: the questions, which change nothing, and the other calls of the two services with state.
pub data Request : Type 0 where
  get_plugin_info probe get_plugin_capabilities : Request
  controller_get_capabilities node_get_capabilities node_get_info : Request
  controller_call : History.Call → Request
  node_call : Lifecycle.Call → Request

-- A response. Those without a field are `empty`, and `nil` stands beside an error.
pub data Response : Type 0 where
  nil empty : Response
  plugin_info : GetPluginInfoResponse → Response
  plugin_capabilities : List PluginCapability → Response
  volume_created : Volume → Response
  confirmed : Confirmed → Response
  controller_capabilities : List ControllerServiceCapability → Response
  node_capabilities : List NodeServiceCapability → Response
  node_info : NodeGetInfoResponse → Response

-- What a handler returns for its result.
unfoldable pub answered : {A : Type 0} → (A → Response) → Result Status A → Response × Option Error
answered f (ok a) = (f a, none)
answered f (err st) = (nil, some (status st))

-- The state of the two services: the ids of volumes, and the machine with events and the counter.
pub record State (H : Host) : Type 0 where
  pub volumes : Volumes
  pub world : World H

-- The handlers of the controller service.
unfoldable pub controller_answer :
    Controller.ControllerServer → History.Call → Volumes → (Response × Option Error) × Volumes
controller_answer cs (History.create uuid req) volumes =
    let (r, left) = Controller.create_volume cs uuid req volumes in
    (answered volume_created r, left)
controller_answer cs (History.delete req) volumes =
    let (r, left) = Controller.delete_volume req volumes in (answered (λ _. empty) r, left)
controller_answer cs (History.validate req) volumes =
    let (r, left) = Controller.validate_volume_capabilities req volumes in
    (answered confirmed r, left)

module _ {H : Host} (srv : Server H) where
  -- The handler of each method, as registered.
  unfoldable pub handler : Request → State H → (Response × Option Error) × State H
  handler get_plugin_info s = ((plugin_info (Identity.get_plugin_info srv.identity), none), s)
  handler probe s = ((empty, none), s)
  handler get_plugin_capabilities s =
      ((plugin_capabilities Identity.get_plugin_capabilities, none), s)
  handler controller_get_capabilities s =
      ((controller_capabilities Controller.controller_get_capabilities, none), s)
  handler node_get_capabilities s = ((node_capabilities Node.node_get_capabilities, none), s)
  handler node_get_info s = ((node_info (Node.node_get_info srv.node), none), s)
  handler (controller_call c) s =
      let (answer, left) = controller_answer srv.controller c s.volumes in
      (answer, record s { volumes = left })
  handler (node_call c) s =
      let (r, left) = Lifecycle.answer srv.node c s.world in
      (answered (λ _. empty) r, record s { world = left })

  module _ {Stripped : Type 0} (method : Request → String) (strip : Request → Stripped) where
    -- The server's answers to requests that come one after another, with the log.
    unfoldable pub handle_all :
        List Request
        → State H × List (LogLine Stripped Response)
        → List (Response × Option Error) × (State H × List (LogLine Stripped Response))
    handle_all [] s = ([], s)
    handle_all (req ∷ requests) s =
        let (answer, s') = err_handler strip (method req) handler req s in
        let (answers, end) = handle_all requests s' in (answer ∷ answers, end)
