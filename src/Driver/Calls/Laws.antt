-- ===== src/Driver/Calls/Laws.antt =====
-- The server is its two services side by side, and its log tells what they answered.
use mathlib.Core.List.{append-nil, append_assoc}
use data_csi.Base.{
  String, suc, ◌≡◌, refl, sym, ◌∙◌, ap, List, [], ◌∷◌, ◌++◌, Option, none, some, length,
}
use data_csi.Errors.{Error}
use data_csi.Host.{Host}
use data_csi.Controller.{ControllerServer, Volumes}
use data_csi.Controller.History as History
use data_csi.Node.Server.{NodeServer, World}
use data_csi.Node.Lifecycle as Lifecycle
use data_csi.Node.Lifecycle.{serve_single_mount}
use data_csi.Driver.{LogLine, called, failed, succeeded, logged, err_handler}
use data_csi.Driver.Serving.{Server}
use data_csi.Driver.Calls.{
  Request, controller_call, node_call, Response, empty, answered, State, controller_answer, handler,
  handle_all,
}

-- The calls of each service among the requests, in order.
abbrev pub controller_calls : List Request → List History.Call
controller_calls [] = []
controller_calls (controller_call c ∷ requests) = c ∷ controller_calls requests
controller_calls (_ ∷ requests) = controller_calls requests

abbrev pub node_calls : List Request → List Lifecycle.Call
node_calls [] = []
node_calls (node_call c ∷ requests) = c ∷ node_calls requests
node_calls (_ ∷ requests) = node_calls requests

-- The answers to them among all answers.
abbrev pub controller_answers :
    List Request → List (Response × Option Error) → List (Response × Option Error)
controller_answers (controller_call c ∷ requests) (answer ∷ answers) =
    answer ∷ controller_answers requests answers
controller_answers (_ ∷ requests) (answer ∷ answers) = controller_answers requests answers
controller_answers _ _ = []

abbrev pub node_answers :
    List Request → List (Response × Option Error) → List (Response × Option Error)
node_answers (node_call c ∷ requests) (answer ∷ answers) = answer ∷ node_answers requests answers
node_answers (_ ∷ requests) (answer ∷ answers) = node_answers requests answers
node_answers _ _ = []

-- What a service that is alone answers.
abbrev pub controller_alone :
    ControllerServer → List History.Call → Volumes → List (Response × Option Error)
controller_alone cs [] volumes = []
controller_alone cs (c ∷ calls) volumes =
    (controller_answer cs c volumes).0 ∷ controller_alone cs calls (History.after cs c volumes)

abbrev pub node_alone :
    {H : Host} → NodeServer H → List Lifecycle.Call → World H → List (Response × Option Error)
node_alone ns [] w = []
node_alone ns (c ∷ calls) w =
    let (r, left) = Lifecycle.answer ns c w in answered (λ _. empty) r ∷ node_alone ns calls left

module _ {Stripped : Type 0} (method : Request → String) (strip : Request → Stripped) where
  -- How a call ended, as it is logged.
  abbrev pub outcome : Request → Response × Option Error → LogLine Stripped Response
  outcome req (resp, none) = succeeded (method req) resp
  outcome req (resp, some e) = failed (method req) e (strip req)

  -- The log of some requests with their answers.
  abbrev pub transcript :
      List Request → List (Response × Option Error) → List (LogLine Stripped Response)
  transcript (req ∷ requests) (answer ∷ answers) =
      called (method req) (strip req) ∷ outcome req answer ∷ transcript requests answers
  transcript _ _ = []

module _ {H : Host} (srv : Server H) where
  -- What is left in the state by a request.
  abbrev after : Request → State H → State H
  after (controller_call c) s = record s { volumes = History.after srv.controller c s.volumes }
  after (node_call c) s = record s { world = (Lifecycle.answer srv.node c s.world).1 }
  after _ s = s

  controller_answer-after :
      (c : History.Call) (volumes : Volumes)
      → (controller_answer srv.controller c volumes).1 ≡ History.after srv.controller c volumes
  unfolding controller_answer History.after
  controller_answer-after (History.create uuid req) volumes = refl
  controller_answer-after (History.delete req) volumes = refl
  controller_answer-after (History.validate req) volumes = refl

  handler-after : (req : Request) (s : State H) → (handler srv req s).1 ≡ after req s
  unfolding handler
  handler-after (controller_call c) s = rw (controller_answer-after c s.volumes) refl
  handler-after (node_call c) s = refl
  handler-after _ s = refl

  volumes-after :
      (req : Request) (requests : List Request) (s : State H)
      → History.run srv.controller (controller_calls requests) (after req s).volumes
        ≡ History.run srv.controller (controller_calls (req ∷ requests)) s.volumes
  unfolding History.run
  volumes-after (controller_call c) requests s = refl
  volumes-after _ requests s = refl

  world-after :
      (req : Request) (requests : List Request) (s : State H)
      → Lifecycle.serve srv.node (node_calls requests) (after req s).world
        ≡ Lifecycle.serve srv.node (node_calls (req ∷ requests)) s.world
  unfolding Lifecycle.serve
  world-after (node_call c) requests s = refl
  world-after _ requests s = refl

  controller_answers-handler :
      (req : Request) (requests : List Request) (answers : List (Response × Option Error))
      (s : State H)
      → controller_answers requests answers
        ≡ controller_alone srv.controller (controller_calls requests) (handler srv req s).1.volumes
      → controller_answers (req ∷ requests) ((handler srv req s).0 ∷ answers)
        ≡ controller_alone srv.controller (controller_calls (req ∷ requests)) s.volumes
  unfolding handler
  controller_answers-handler (controller_call c) requests answers s h =
      rw (h, controller_answer-after c s.volumes) refl
  controller_answers-handler _ requests answers s h = h

  node_answers-handler :
      (req : Request) (requests : List Request) (answers : List (Response × Option Error))
      (s : State H)
      → node_answers requests answers
        ≡ node_alone srv.node (node_calls requests) (handler srv req s).1.world
      → node_answers (req ∷ requests) ((handler srv req s).0 ∷ answers)
        ≡ node_alone srv.node (node_calls (req ∷ requests)) s.world
  unfolding handler
  node_answers-handler (node_call c) requests answers s h = rw h refl
  node_answers-handler _ requests answers s h = h

  module _ {Stripped : Type 0} (method : Request → String) (strip : Request → Stripped) where
    logged-outcome :
        {T : Type 0} (req : Request) (log : List (LogLine Stripped Response))
        (r : (Response × Option Error) × T)
        → logged (method req) (strip req) (log ++ (called (method req) (strip req) ∷ [])) r ≡ (
          r.0,
          (r.1, log ++ (called (method req) (strip req) ∷ outcome method strip req r.0 ∷ [])),
        )
    unfolding logged
    logged-outcome req log ((resp, none), s) = rw append_assoc refl
    logged-outcome req log ((resp, some e), s) = rw append_assoc refl

    handle_all-cons :
        (req : Request) (requests : List Request) (s : State H)
        (log : List (LogLine Stripped Response))
        → let (answer, left) = handler srv req s in
          let (answers, end) = handle_all srv method strip requests (
            left,
            log ++ (called (method req) (strip req) ∷ outcome method strip req answer ∷ []),
          ) in
          handle_all srv method strip (req ∷ requests) (s, log) ≡ (answer ∷ answers, end)
    unfolding handle_all err_handler
    handle_all-cons req requests s log = rw (logged-outcome req log (handler srv req s)) refl

    -- Requests that come one after another are answered by each service, and leave in it, what its
    -- own calls among them are answered and leave, as if the other service were not there. Each gets
    -- one answer, and the log has for each, in order, the call and how it ended.
    pub handle_all_lem :
        (requests : List Request) (s : State H) (log : List (LogLine Stripped Response))
        → let (answers, (left, log')) = handle_all srv method strip requests (s, log) in
          (left.volumes ≡ History.run srv.controller (controller_calls requests) s.volumes)
          × (left.world ≡ Lifecycle.serve srv.node (node_calls requests) s.world)
          × (controller_answers requests answers
              ≡ controller_alone srv.controller (controller_calls requests) s.volumes)
          × (node_answers requests answers ≡ node_alone srv.node (node_calls requests) s.world)
          × (log' ≡ log ++ transcript method strip requests answers)
          × (length answers ≡ length requests)
    handle_all_lem [] s log =
        unfold handle_all History.run Lifecycle.serve in
        (refl, refl, refl, refl, sym (append-nil log), refl)
    handle_all_lem (req ∷ requests) s log =
        let left = (handler srv req s).1 in
        let line = called (method req) (strip req) in
        let end = outcome method strip req (handler srv req s).0 in
        let (volumes, world, controller, node, logs, count) =
          handle_all_lem requests left (log ++ (line ∷ end ∷ [])) in
        let same = handler-after req s in
        rw (handle_all-cons req requests s log) (
          volumes ∙ rw same (volumes-after req requests s),
          world ∙ rw same (world-after req requests s),
          controller_answers-handler req requests _ s controller,
          node_answers-handler req requests _ s node,
          logs ∙ append_assoc log (line ∷ end ∷ []) _,
          ap suc count,
        )
