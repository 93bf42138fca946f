-- ===== src/Node/Lifecycle.antt =====
-- The calls of the node service in any order, as kubelet makes them, each on the state that the one
-- before left, whether it succeeded or not.
pub mod Ephemeral
use Prim.Native.Nat.{max}
use data_csi.Base.{
  String, ◌≤◌, ◌≡◌, true, false, Bool, arith, ◌==◌, eq_refl, eq_iff, is_ok, if◌then◌else◌, List, [],
  ◌∷◌, Result,
}
use data_csi.Csi.{
  NodeStageVolumeRequest, NodePublishVolumeRequest, NodeUnpublishVolumeRequest,
  NodeUnstageVolumeRequest,
}
use data_csi.Errors.{Status}
use data_csi.Host.{Host}
use data_csi.Host.Laws.{View, MountLaws}
use data_csi.Node.Server.{NodeServer, World}
use data_csi.Node.Stage.{node_stage_volume}
use data_csi.Node.Stage.Laws.{depth-node_stage_volume}
use data_csi.Node.Publish.{node_publish_volume}
use data_csi.Node.Publish.Laws.{depth-node_publish_volume}
use data_csi.Node.Unpublish.{node_unpublish_volume}
use data_csi.Node.Unpublish.Laws.{depth-node_unpublish_volume, depth-node_unstage_volume}
use data_csi.Node.Unstage.{node_unstage_volume}

-- A call of the node service that may change something.
pub data Call : Type 0 where
  stage : NodeStageVolumeRequest → Call
  publish : NodePublishVolumeRequest → Call
  unpublish : NodeUnpublishVolumeRequest → Call
  unstage : NodeUnstageVolumeRequest → Call

unfoldable pub answer :
    {H : Host} → NodeServer H → Call → World H → Result Status (Unit {0}) × World H
answer ns (stage req) = node_stage_volume ns req
answer ns (publish req) = node_publish_volume ns req
answer ns (unpublish req) = node_unpublish_volume ns req
answer ns (unstage req) = node_unstage_volume req

unfoldable pub serve : {H : Host} → NodeServer H → List Call → World H → World H
unfolding answer
serve ns [] w = w
serve ns (c ∷ calls) w = serve ns calls (answer ns c w).1

-- Whether a call asks to publish at a path.
abbrev pub publishes_at : String → Call → Bool
publishes_at q (publish req) = req.target_path == q
publishes_at q _ = false

-- Whether one of the calls does.
abbrev pub some_publishes_at : String → List Call → Bool
some_publishes_at q [] = false
some_publishes_at q (c ∷ calls) = if publishes_at q c then true else some_publishes_at q calls

module _ {H : Host} {V : View H} (L : MountLaws V) (ns : NodeServer H) where
  depth-answer :
      (c : Call) (w : World H) (q : String)
      → V.depth (answer ns c w).1.host q
        ≤ (if publishes_at q c then max (V.depth w.host q) 1 else V.depth w.host q)
  unfolding answer
  depth-answer (stage req) w q = ground (arith, depth-node_stage_volume ns L req w q)
  depth-answer (publish req) w q = ground (arith, depth-node_publish_volume L ns req w q)
  depth-answer (unpublish req) w q = (depth-node_unpublish_volume L ns req w q).1
  depth-answer (unstage req) w q = ground (arith, depth-node_unstage_volume L req w q)

  -- Whatever calls are made, in whatever order and with whatever failures, no path gets a second
  -- mount on top of one: a path with at most one mount at first has at most one in the end.
  pub serve_single_mount :
      (calls : List Call) (w : World H) (q : String)
      → V.depth w.host q ≤ 1
      → V.depth (serve ns calls w).host q ≤ 1
  unfolding serve
  serve_single_mount [] w q h = h
  serve_single_mount (c ∷ calls) w q h =
      serve_single_mount calls (answer ns c w).1 q (ground (arith, depth-answer c w q))

  -- A path at which nothing was mounted, and which no call asks to publish at, has no mount in the
  -- end.
  pub serve_mounts_published :
      (calls : List Call) (w : World H) (q : String)
      → some_publishes_at q calls ≡ false
      → V.depth w.host q ≡ 0
      → V.depth (serve ns calls w).host q ≡ 0
  unfolding serve
  serve_mounts_published [] w q n h = h
  serve_mounts_published (c ∷ calls) w q n h =
      serve_mounts_published calls (answer ns c w).1 q (ground arith)
        (ground (arith, depth-answer c w q))

  -- The flow of a persistent volume: where it is staged, with success or not, published at a
  -- target without a mount, unpublished from there and unstaged, and publishing and unpublishing
  -- succeed, then after the publication the target has one mount, and in the end every path has
  -- the mounts that it had at first.
  pub serve_round_trip :
      (req : NodeStageVolumeRequest) (pub_req : NodePublishVolumeRequest)
      (unpub_req : NodeUnpublishVolumeRequest) (un_req : NodeUnstageVolumeRequest) (w : World H)
      → unpub_req.target_path ≡ pub_req.target_path
      → V.depth w.host pub_req.target_path ≡ 0
      → let staged = (node_stage_volume ns req w).1 in
        let published = node_publish_volume ns pub_req staged in
        is_ok published.0 ≡ true
        → is_ok (node_unpublish_volume ns unpub_req published.1).0 ≡ true
        → (V.depth published.1.host pub_req.target_path ≡ 1)
          × ((q : String)
              → V.depth
                  (serve ns
                    (stage req ∷ publish pub_req ∷ unpublish unpub_req ∷ unstage un_req ∷ [])
                    w).host
                  q
                ≡ V.depth w.host q)
  unfolding serve answer
  serve_round_trip req pub_req unpub_req un_req w same clear p u =
      let target = pub_req.target_path in
      let staged = (node_stage_volume ns req w).1 in
      let published = (node_publish_volume ns pub_req staged).1 in
      let unpublished = (node_unpublish_volume ns unpub_req published).1 in
      (
        ground (
          arith,
          depth-node_stage_volume ns L req w target,
          depth-node_publish_volume L ns pub_req staged target,
          eq_refl target,
        ),
        λ q. ground (
          arith,
          depth-node_stage_volume ns L req w q,
          depth-node_publish_volume L ns pub_req staged q,
          depth-node_unpublish_volume L ns unpub_req published q,
          depth-node_unstage_volume L un_req unpublished q,
          eq_iff target q,
        ),
      )
