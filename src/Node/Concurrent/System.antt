-- ===== src/Node/Concurrent/System.antt =====
-- The node service with calls in flight: each is a goroutine that makes its next step at any time.
use data_csi.Base.{List, [], ◌∷◌, ◌++◌, ◌≡◌, Result}
use data_csi.Base.Act.{done, step}
use data_csi.Errors.{Status}
use data_csi.Host.{Host}
use data_csi.Node.Server.{NodeServer, World}
use data_csi.Node.Lifecycle.{Call}
use data_csi.Node.Concurrent.{Handler, act}

-- A call in flight: the request, and what is left of its handler.
pub record Thread (H : Host) : Type 0 where
  pub call : Call
  pub rest : Handler H (Unit {0})

pub record System (H : Host) : Type 0 where
  pub world : World H
  pub threads : List (Thread H)

-- A call arrives, a handler makes a step, or a handler that has returned is gone. `May` says which
-- calls the clients make while others are in flight.
pub data Step {H : Host} (ns : NodeServer H) (May : Call → List (Thread H) → Type 0) (s : System H)
    : System H → Type 0 where
  arrive :
      (c : Call)
      → May c s.threads
      → Step ns May s (record s { threads = record { call = c; rest = act ns c } ∷ s.threads })
  advance :
      (before after : List (Thread H)) (c : Call) (f : World H → World H)
      (rest : World H → Handler H (Unit {0}))
      → s.threads ≡ before ++ (record { call = c; rest = step f rest } ∷ after)
      → Step ns May s (record {
        world = f s.world;
        threads = before ++ (record { call = c; rest = rest s.world } ∷ after);
      })
  leave :
      (before after : List (Thread H)) (c : Call) (r : Result Status (Unit {0}))
      → s.threads ≡ before ++ (record { call = c; rest = done r } ∷ after)
      → Step ns May s (record s { threads = before ++ after })

-- The states that steps lead to from a world with no call in flight.
pub data Reach {H : Host} (ns : NodeServer H) (May : Call → List (Thread H) → Type 0) (w : World H)
    : System H → Type 0 where
  start : Reach ns May w (record { world = w; threads = [] })
  later : {s t : System H} → Reach ns May w s → Step ns May s t → Reach ns May w t
