-- ===== src/Driver/Node/Table.antt =====
-- driver/nodeserver.go: what the requests to a node are to make of its mounts, as a table that counts the
-- mounts on each path, and the requests one after another.
pub mod Steps
pub mod Handlers
pub mod Refinement
pub mod Cycle
use nvmeof_csi.Base.{
  ℕ, ◌+◌, String, Bool, true, false, List, [], ◌∷◌, ◌==◌, nat_eq, string_eq, if◌then◌else◌, Action,
  pure, ◌>>=◌, Result, ok, err, Option, ◌≡◌, ◌≢◌,
}
use nvmeof_csi.Host.{Host}
use nvmeof_csi.Host.Laws.{MountView}
use nvmeof_csi.Locks.{Server}
use nvmeof_csi.Driver.Node.Stage.{
  NodeStageVolumeRequest, staged_path, staging_path, handle_node_stage_volume,
  handle_node_unstage_volume,
}
use nvmeof_csi.Driver.Node.Publish.{
  NodePublishVolumeRequest, handle_node_publish_volume, handle_node_unpublish_volume,
}

-- A request to a node.
pub data Request : Type 0 where
  stages : NodeStageVolumeRequest → Request
  unstages : (volume_id staging : String) → Request
  publishes : NodePublishVolumeRequest → Request
  unpublishes : (volume_id target : String) → Request

-- The handler of a request, and a session: requests each of which succeeds.
module _ (H : Host) where
  unfoldable pub handle : Request → Action (Server H.State) (Unit {0})
  handle (stages req) = handle_node_stage_volume H req
  handle (unstages id staging) = handle_node_unstage_volume H id staging
  handle (publishes req) = handle_node_publish_volume H req
  handle (unpublishes id target) = handle_node_unpublish_volume H id target

  unfoldable pub handle_all : List Request → Action (Server H.State) (Unit {0})
  unfolding handle
  handle_all [] = pure tt
  handle_all (r ∷ rs) = handle r >>= λ _. handle_all rs

-- How many mounts are stacked on each path.
abbrev pub Table : Type 0
Table = String → ℕ

abbrev pub put : String → ℕ → Table → Table
put p n d q = if q == p then n else d q

-- What a request that succeeds is to make of the table. Staging a volume that is staged changes nothing;
-- publishing mounts whether or not the target is mounted.
unfoldable pub effect : Request → Table → Table
effect (stages req) d = if d (staged_path req) == 0 then put (staged_path req) 1 d else d
effect (unstages id staging) d = put (staging_path staging id) 0 d
effect (publishes req) d = put req.target_path (d req.target_path + 1) d
effect (unpublishes id target) d = put target 0 d

unfoldable pub effects : List Request → Table → Table
unfolding effect
effects [] d = d
effects (r ∷ rs) d = effects rs (effect r d)
