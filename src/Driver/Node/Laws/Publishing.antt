-- ===== src/Driver/Node/Laws/Publishing.antt =====
-- driver/nodeserver.go: `NodePublishVolume` and `NodeUnpublishVolume` on one target path.
use nvmeof_csi.Base.{
  ◌+◌, String, ◌≡◌, ◌≢◌, true, false, ok, arith, done, >>=-eq-done, on_error-eq-done, lift-eq-done,
  on_error, lift, status, internal, message, ◌<>◌,
}
use nvmeof_csi.Base.FilePath.{join}
use nvmeof_csi.Host.{Host}
use nvmeof_csi.Host.Laws.{IsAbsent, MountView}
use nvmeof_csi.Locks.{Server}
use nvmeof_csi.Locks.Laws.{AllFree, with_lock-eq-done}
use nvmeof_csi.Driver.Node.MountPoint.{create_mount_point, delete_mount_point}
use nvmeof_csi.Driver.Node.Stage.{as_internal}
use nvmeof_csi.Driver.Node.Publish.{
  NodePublishVolumeRequest, is_block, bind_target, node_publish_volume, handle_node_publish_volume,
  node_unpublish_volume, handle_node_unpublish_volume,
}
use nvmeof_csi.Driver.Node.Laws.Mounts.{
  create_mount_point-depth, delete_mount_point-IsAbsent, delete_mount_point_again,
}

module _ (H : Host) (V : MountView H) where
  bind_target-depth :
      (staging target : String) (s : H.State) {r : Unit {0}} {t : H.State}
      → bind_target H staging target s ≡ done r t
      → V.depth t target ≡ V.depth s target + 1
  unfolding bind_target
  bind_target-depth staging target s h =
      let (b, u, created, rest) =
        >>=-eq-done
          (on_error (λ e. status internal ("failed to create target mount point: " <> message e))
            (create_mount_point H target))
          (λ _.
            on_error (λ e. status internal ("bind mount failed: " <> message e))
              (lift (H.mount staging target)))
          s h in
      let made : create_mount_point H target s ≡ done b u =
        on_error-eq-done _ (create_mount_point H target) s created in
      let bound =
        lift-eq-done (H.mount staging target) u
          (on_error-eq-done _ (lift (H.mount staging target)) u rest) in
      ground (
        arith,
        V.mount_adds staging target u bound,
        create_mount_point-depth H V target target s,
        made,
      )

  -- A publication that succeeds is of a block volume, and puts one mount more on the target.
  node_publish_volume-depth :
      (req : NodePublishVolumeRequest) (s : H.State) {r : Unit {0}} {t : H.State}
      → node_publish_volume H req s ≡ done r t
      → (is_block req.volume_capability ≡ true)
        × (V.depth t req.target_path ≡ V.depth s req.target_path + 1)
  unfolding node_publish_volume
  node_publish_volume-depth req s {r} {t} h = ground (
    arith,
    bind_target-depth (join req.staging_target_path req.volume_id) req.target_path s {r = r}
        {t = t},
  )

  -- On a machine that keeps the mount rules, with every mutex free: if `NodePublishVolume` succeeds,
  -- the request is for a block volume, the target path is a mount point with exactly one mount more
  -- than before, whether or not it was a mount point already, and every mutex is free again.
  handle_node_publish_volume-mounted :
      (req : NodePublishVolumeRequest) (s : Server H.State) {r : Unit {0}} {t : Server H.State}
      → AllFree s.locks
      → handle_node_publish_volume H req s ≡ done r t
      → (is_block req.volume_capability ≡ true)
        × (V.depth t.world req.target_path ≡ V.depth s.world req.target_path + 1)
        × (H.is_not_mount_point req.target_path t.world ≡ ok false)
        × AllFree t.locks
  unfolding handle_node_publish_volume
  handle_node_publish_volume-mounted req s {r} {t} free h =
      let (ran, free') =
        with_lock-eq-done req.volume_id (node_publish_volume H req) s {a = r} {t = t} free h in
      let (is_block_volume, deeper) = node_publish_volume-depth req s.world ran in
      (is_block_volume, deeper, V.seen req.target_path t.world (omega arith), free')

  pub node_unpublish_volume-deleted :
      (target : String) (s : H.State) {r : Unit {0}} {t : H.State}
      → node_unpublish_volume H target s ≡ done r t
      → delete_mount_point H target s ≡ done r t
  unfolding node_unpublish_volume
  node_unpublish_volume-deleted target s h =
      on_error-eq-done as_internal (delete_mount_point H target) s h

  -- On a machine that keeps the mount rules, with every mutex free: if `NodeUnpublishVolume` succeeds,
  -- the target path is absent, every mutex is free again, and unpublishing once more succeeds and
  -- changes nothing on the machine.
  pub handle_node_unpublish_volume_idempotent :
      (id target : String) (s : Server H.State) {r : Unit {0}} {t : Server H.State}
      → AllFree s.locks
      → handle_node_unpublish_volume H id target s ≡ done r t
      → IsAbsent H target t.world
        × AllFree t.locks
        × (node_unpublish_volume H target t.world ≡ done tt t.world)
  unfolding handle_node_unpublish_volume
  handle_node_unpublish_volume_idempotent id target s {r} {t} free h =
      let (ran, free') =
        with_lock-eq-done id (node_unpublish_volume H target) s {a = r} {t = t} free h in
      let absent =
        (delete_mount_point-IsAbsent H V target s.world
          (node_unpublish_volume-deleted target s.world ran)).0 in
      (
        absent,
        free',
        unfold node_unpublish_volume in
            ground (arith, delete_mount_point_again H target t.world absent),
      )

  -- On a machine that keeps the mount rules, with every mutex free: after `NodePublishVolume` has
  -- succeeded twice for one target, as when a request is repeated, `NodeUnpublishVolume` of that
  -- target does not succeed.
  pub unpublish-publish_twice :
      (req again : NodePublishVolumeRequest) (s : Server H.State) {q r : Unit {0}}
      {t u : Server H.State}
      → AllFree s.locks
      → again.target_path ≡ req.target_path
      → handle_node_publish_volume H req s ≡ done q t
      → handle_node_publish_volume H again t ≡ done r u
      → (id : String) (v : Server H.State)
      → handle_node_unpublish_volume H id req.target_path u ≢ done tt v
  unfolding handle_node_unpublish_volume
  unpublish-publish_twice req again s {u = u} free same once twice id v h =
      let (_, first, _, free') = handle_node_publish_volume-mounted req s free once in
      let (_, second, _, free'') = handle_node_publish_volume-mounted again _ free' twice in
      let (ran, _) =
        with_lock-eq-done id (node_unpublish_volume H req.target_path) u {a = tt} {t = v} free''
          h in
      let (_, shallow) =
        delete_mount_point-IsAbsent H V req.target_path u.world
          (node_unpublish_volume-deleted req.target_path u.world ran) in
      absurd (omega (arith, rw same at second))
