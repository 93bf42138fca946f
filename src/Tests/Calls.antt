-- ===== src/Tests/Calls.antt =====
-- The driver's server on the machine of the tests.
use data_csi.Base.{String, ◌≡◌, List, [], ◌∷◌, ◌++◌, length}
use data_csi.Controller.History as History
use data_csi.Node.Lifecycle as Lifecycle
use data_csi.Driver.Serving.{Server, registered}
use data_csi.Driver.Calls.{Request, probe, controller_call, node_call, State, handle_all}
use data_csi.Driver.Calls.Laws.{
  controller_calls, node_calls, controller_answers, node_answers, controller_alone, node_alone,
  transcript, handle_all_lem,
}
use data_csi.Tests.Machine.{machine}
use data_csi.Tests.Requests.{empty, publish_request, unpublish_request}
use data_csi.Tests.Controllers.{create_request}
use data_csi.Tests.Drivers.{driver}

abbrev requests : List Request
requests =
    probe
    ∷ controller_call (History.create "one" create_request)
    ∷ node_call (Lifecycle.publish publish_request)
    ∷ node_call (Lifecycle.unpublish unpublish_request)
    ∷ []

-- The kind of a request, for its method's name and for what is logged of it.
abbrev kind : Request → String
kind (controller_call c) = "controller"
kind (node_call c) = "node"
kind _ = "question"

abbrev server : Server machine
server = registered driver

abbrev at_first : State machine
at_first = record { volumes = []; world = empty }

handle_all_lem_example :
    let (answers, (left, log)) = handle_all server kind kind requests (at_first, []) in
    (left.volumes ≡ History.run server.controller (controller_calls requests) at_first.volumes)
    × (left.world ≡ Lifecycle.serve server.node (node_calls requests) at_first.world)
    × (controller_answers requests answers
        ≡ controller_alone server.controller (controller_calls requests) at_first.volumes)
    × (node_answers requests answers ≡ node_alone server.node (node_calls requests) at_first.world)
    × (log ≡ [] ++ transcript kind kind requests answers)
    × (length answers ≡ length requests)
handle_all_lem_example = handle_all_lem server kind kind requests at_first []
