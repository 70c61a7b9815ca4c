-- ===== src/Driver/Node/Table/Refinement.antt =====
-- driver/nodeserver.go: sequences of requests against what they are to make of the table of mounts.
use nvmeof_csi.Base.{◌≡◌, ap, ◌∙◌, nat_eq, string_eq, arith, done, >>=-eq-done, List, [], ◌∷◌}
use nvmeof_csi.Host.{Host}
use nvmeof_csi.Host.Laws.{MountTable, MountView}
use nvmeof_csi.Locks.{Server}
use nvmeof_csi.Locks.Laws.{AllFree, with_lock-eq-done}
use nvmeof_csi.Driver.Node.Stage.{node_unstage_volume, handle_node_unstage_volume}
use nvmeof_csi.Driver.Node.Publish.{
  node_publish_volume, handle_node_publish_volume, node_unpublish_volume,
  handle_node_unpublish_volume,
}
use nvmeof_csi.Driver.Node.Laws.Staging.{handle_node_stage_volume-eq-done}
use nvmeof_csi.Driver.Node.Table.{
  Request, stages, unstages, publishes, unpublishes, handle, handle_all, effect, effects,
}
use nvmeof_csi.Driver.Node.Table.Handlers.{
  node_stage_volume-effect, node_unstage_volume-effect, node_publish_volume-effect,
  node_unpublish_volume-effect,
}

module _ (H : Host) (V : MountView H) (M : MountTable H V) where
  -- A request that succeeds, with its lock.
  handle-effect :
      (req : Request) (s : Server H.State) {r : Unit {0}} {t : Server H.State}
      → AllFree s.locks
      → handle H req s ≡ done r t
      → (V.depth t.world ≡ effect req (V.depth s.world)) × AllFree t.locks
  unfolding handle handle_node_unstage_volume handle_node_publish_volume
      handle_node_unpublish_volume
  handle-effect (stages req) s free h =
      let (ran, free') = handle_node_stage_volume-eq-done H V req s free h in
      (node_stage_volume-effect H V M req s.world ran, free')
  handle-effect (unstages id staging) s {r} {t} free h =
      let (ran, free') =
        with_lock-eq-done id (node_unstage_volume H id staging) s {a = r} {t = t} free h in
      (node_unstage_volume-effect H V M id staging s.world ran, free')
  handle-effect (publishes req) s {r} {t} free h =
      let (ran, free') =
        with_lock-eq-done req.volume_id (node_publish_volume H req) s {a = r} {t = t} free h in
      (node_publish_volume-effect H V M req s.world ran, free')
  handle-effect (unpublishes id target) s {r} {t} free h =
      let (ran, free') =
        with_lock-eq-done id (node_unpublish_volume H target) s {a = r} {t = t} free h in
      (node_unpublish_volume-effect H V M id target s.world ran, free')

  -- On a machine that keeps the mount rules, with every mutex free: after any sequence of requests to stage,
  -- unstage, publish and unpublish, for any volumes and paths and each of which succeeds, every path has
  -- as many mounts as `effects` makes of those before, and every mutex is free again.
  pub handle_all_refines :
      (reqs : List Request) (s : Server H.State) {r : Unit {0}} {t : Server H.State}
      → AllFree s.locks
      → handle_all H reqs s ≡ done r t
      → (V.depth t.world ≡ effects reqs (V.depth s.world)) × AllFree t.locks
  unfolding handle_all effects
  handle_all_refines [] s free h = ground (arith, h)
  handle_all_refines (req ∷ reqs) s free h =
      let (a, u, ran, rest) = >>=-eq-done (handle H req) (λ _. handle_all H reqs) s h in
      let (moved, free') = handle-effect req s free ran in
      let (last, free'') = handle_all_refines reqs u free' rest in
      (last ∙ ap (effects reqs) moved, free'')
