-- ===== src/Driver/Node/Table/Cycle.antt =====
-- driver/nodeserver.go: a volume from its staging to its unstaging.
use nvmeof_csi.Base.{String, ◌≡◌, ap, ◌∙◌, nat_eq, string_eq, eq_iff, arith, done, List, [], ◌∷◌}
use nvmeof_csi.Host.{Host}
use nvmeof_csi.Host.Laws.{MountTable, MountView}
use nvmeof_csi.Locks.{Server}
use nvmeof_csi.Locks.Laws.{AllFree}
use nvmeof_csi.Driver.Node.Stage.{NodeStageVolumeRequest, staged_path}
use nvmeof_csi.Driver.Node.Publish.{NodePublishVolumeRequest}
use nvmeof_csi.Driver.Node.Table.{
  Table, Request, stages, unstages, publishes, unpublishes, handle_all, effect, effects,
}
use nvmeof_csi.Driver.Node.Table.Handlers.{effect_free}
use nvmeof_csi.Driver.Node.Table.Refinement.{handle_all_refines}

-- The life of a volume on a node.
abbrev pub cycle : NodeStageVolumeRequest → NodePublishVolumeRequest → List Request
cycle req bind =
    stages req
    ∷ publishes bind
    ∷ unpublishes bind.volume_id bind.target_path
    ∷ unstages req.volume_id req.staging_target_path
    ∷ []

module _ (H : Host) (V : MountView H) (M : MountTable H V) where
  cycle-effect :
      (req : NodeStageVolumeRequest) (bind : NodePublishVolumeRequest) (d : Table)
      → d (staged_path req) ≡ 0
      → d bind.target_path ≡ 0
      → (q : String) → effects (cycle req bind) d q ≡ d q
  unfolding effects effect
  cycle-effect req bind d unstaged unpublished q =
      rw (effect_free H V M req d unstaged) (
        ground
          (arith, unstaged, unpublished, eq_iff q (staged_path req), eq_iff q bind.target_path))

  -- On a machine that keeps the mount rules, with every mutex free and no mount on the staging path and on the
  -- target: if `NodeStageVolume`, `NodePublishVolume`, `NodeUnpublishVolume` and `NodeUnstageVolume` of a
  -- volume succeed one after another, then every path has as many mounts as before.
  pub stage_publish_cycle :
      (req : NodeStageVolumeRequest) (bind : NodePublishVolumeRequest) (s : Server H.State)
      {r : Unit {0}} {t : Server H.State}
      → AllFree s.locks
      → V.depth s.world (staged_path req) ≡ 0
      → V.depth s.world bind.target_path ≡ 0
      → handle_all H (cycle req bind) s ≡ done r t
      → (q : String) → V.depth t.world q ≡ V.depth s.world q
  stage_publish_cycle req bind s free unstaged unpublished h q =
      ap (λ (d : Table). d q) (handle_all_refines H V M (cycle req bind) s free h).0
      ∙ cycle-effect req bind (V.depth s.world) unstaged unpublished q
