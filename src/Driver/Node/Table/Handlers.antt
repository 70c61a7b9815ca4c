-- ===== src/Driver/Node/Table/Handlers.antt =====
-- driver/nodeserver.go: each handler that succeeds, by the table of mounts.
use mathlib.Core.Path.{fun_ext}
use nvmeof_csi.Base.{
  ℕ, ◌+◌, String, ◌≡◌, ◌≢◌, sym, ap, ◌∙◌, Bool, true, false, Bool-cases, inl, inr, nat_eq,
  string_eq, ◌==◌, eq_iff, if◌then◌else◌, arith, done, on_error, lift, pure, returned, >>=-eq-done,
  on_error-eq-done, lift-eq-done, status, internal, message, ◌<>◌,
}
use nvmeof_csi.Base.FilePath.{join}
use nvmeof_csi.Host.{Host}
use nvmeof_csi.Host.Laws.{MountTable, MountView}
use nvmeof_csi.Initiator.{connect, new_initiator}
use nvmeof_csi.Driver.Node.MountPoint.{
  is_staged, create_mount_point, stage_volume, delete_mount_point,
}
use nvmeof_csi.Driver.Node.Stage.{
  NodeStageVolumeRequest, as_internal, unstage_error, staging_path, staged_path, stage_device,
  stage_with, stage_new, node_stage_volume, node_unstage_volume,
}
use nvmeof_csi.Driver.Node.Publish.{
  NodePublishVolumeRequest, is_block, bind_target, node_publish_volume, node_unpublish_volume,
}
use nvmeof_csi.Driver.Node.Laws.Mounts.{create_mount_point-depth}
use nvmeof_csi.Driver.Node.Laws.Staging.{disconnecting-eq-done, is_staged-eq-done, unstage_branch}
use nvmeof_csi.Driver.Node.Laws.Publishing.{node_unpublish_volume-deleted}
use nvmeof_csi.Driver.Node.Table.{Table, put, stages, unstages, publishes, unpublishes, effect}
use nvmeof_csi.Driver.Node.Table.Steps.{
  mount-depth, connect-depth, stage_volume-depth, delete_mount_point-depth,
}

module _ (H : Host) (V : MountView H) (M : MountTable H V) where
  is_staged_free :
      (p : String) (s : H.State) {b : Bool} {t : H.State}
      → V.depth s p ≡ 0
      → is_staged H p s ≡ done b t
      → b ≡ false
  unfolding is_staged
  is_staged_free p s free h = ground (arith, M.unseen p s free)

  is_staged_deep :
      (p : String) (s : H.State) {b : Bool} {t : H.State}
      → V.depth s p ≢ 0
      → is_staged H p s ≡ done b t
      → b ≡ true
  unfolding is_staged
  is_staged_deep p s deep h = ground (arith, V.seen p s deep)

  stage_new-depth :
      (req : NodeStageVolumeRequest) (s : H.State) {r : Unit {0}} {t : H.State}
      → V.depth s (staged_path req) ≡ 0
      → stage_new H req s ≡ done r t
      → (q : String) → V.depth t q ≡ put (staged_path req) 1 (V.depth s) q
  unfolding stage_new stage_with stage_device
  stage_new-depth req s free h q =
      let p = staged_path req in
      let (i, u, made, rest) =
        >>=-eq-done (on_error as_internal (returned (new_initiator req.publish_context)))
          (stage_with H req) s h in
      let (device, v, connected, last) =
        >>=-eq-done (on_error as_internal (connect H i)) (stage_device H req i) u rest in
      let linked = on_error-eq-done as_internal (connect H i) u connected in
      let kept = λ (x : String). connect-depth H V M i u x in
      let same : u ≡ s = ground (arith, made) in
      let mounted =
        stage_volume-depth H V M device p v (ground (arith, kept p, linked, same, free)) (
          on_error-eq-done as_internal (stage_volume H device p) v
            (disconnecting-eq-done H i _ last)) in
      ground (arith, mounted q, kept q, kept p, linked, same, free)

  effect_staged :
      (req : NodeStageVolumeRequest) (d : Table)
      → d (staged_path req) ≢ 0
      → effect (stages req) d ≡ d
  unfolding effect
  effect_staged req d deep = let e : (d (staged_path req) == 0) ≡ false = ground arith in rw e

  pub effect_free :
      (req : NodeStageVolumeRequest) (d : Table)
      → d (staged_path req) ≡ 0
      → effect (stages req) d ≡ put (staged_path req) 1 d
  unfolding effect
  effect_free req d free = rw free

  -- Staging, whether or not the volume is staged.
  pub node_stage_volume-effect :
      (req : NodeStageVolumeRequest) (s : H.State) {r : Unit {0}} {t : H.State}
      → node_stage_volume H req s ≡ done r t
      → V.depth t ≡ effect (stages req) (V.depth s)
  unfolding node_stage_volume
  node_stage_volume-effect req s {r} {t} h =
      let p = staged_path req in
      let (b, u, asked, rest) =
        >>=-eq-done (on_error as_internal (is_staged H p))
          (λ b. if b then pure tt else stage_new H req) s h in
      let plain = on_error-eq-done as_internal (is_staged H p) s asked in
      let same = (is_staged-eq-done H p s plain).0 in
      elim (Bool-cases (V.depth s p == 0)) [
        | inl free ↦
            let unstaged = is_staged_free p s (ground (arith, free)) plain in
            let new : stage_new H req s ≡ done r t = ground (arith, rest, unstaged, same) in
            fun_ext (λ q. stage_new-depth req s (ground (arith, free)) new q)
            ∙ sym (effect_free req (V.depth s) (ground (arith, free)))
        | inr deep ↦
            let staged = is_staged_deep p s (ground (arith, deep)) plain in
            let idle : t ≡ s = ground (arith, rest, staged, same) in
            ap V.depth idle ∙ sym (effect_staged req (V.depth s) (ground (arith, deep)))
      ]

  pub is_staged_shallow :
      (p : String) (s : H.State) {b : Bool} {t : H.State}
      → is_staged H p s ≡ done b t
      → b ≡ false
      → V.depth s p ≡ 0
  is_staged_shallow p s h e = elim (Bool-cases (V.depth s p == 0)) [
    | inl free ↦ ground (arith, free)
    | inr deep ↦ ground (arith, is_staged_deep p s (ground (arith, deep)) h, e)
  ]

  put_self : (p : String) (n : ℕ) (d : Table) → d p ≡ n → d ≡ put p n d
  put_self p n d e = fun_ext (λ q. ground (arith, e, eq_iff q p))

  pub node_unstage_volume-effect :
      (id staging : String) (s : H.State) {r : Unit {0}} {t : H.State}
      → node_unstage_volume H id staging s ≡ done r t
      → V.depth t ≡ effect (unstages id staging) (V.depth s)
  unfolding node_unstage_volume effect
  node_unstage_volume-effect id staging s {r} {t} h =
      let p = staging_path staging id in
      let (b, u, asked, rest) =
        >>=-eq-done (on_error as_internal (is_staged H p))
          (λ b. if b then on_error (unstage_error id) (delete_mount_point H p) else pure tt) s h in
      let plain = on_error-eq-done as_internal (is_staged H p) s asked in
      let same = (is_staged-eq-done H p s plain).0 in
      elim (unstage_branch H V id staging b u rest) as (λ _. V.depth t ≡ put p 0 (V.depth s)) [
        | inl (staged, deleted) ↦
            fun_ext (delete_mount_point-depth H V M p u deleted)
            ∙ ap (λ x. put p 0 (V.depth x)) same
        | inr (unstaged, idle) ↦
            ap V.depth (idle ∙ same)
            ∙ put_self p 0 (V.depth s) (is_staged_shallow p s plain unstaged)
      ]

  bind_target-effect :
      (staging target : String) (s : H.State) {r : Unit {0}} {t : H.State}
      → bind_target H staging target s ≡ done r t
      → (q : String) → V.depth t q ≡ put target (V.depth s target + 1) (V.depth s) q
  unfolding bind_target
  bind_target-effect staging target s h q =
      let (b, u, created, rest) =
        >>=-eq-done
          (on_error (λ e. status internal ("failed to create target mount point: " <> message e))
            (create_mount_point H target))
          (λ _.
            on_error (λ e. status internal ("bind mount failed: " <> message e))
              (lift (H.mount staging target)))
          s h in
      let made = on_error-eq-done _ (create_mount_point H target) s created in
      let bound =
        lift-eq-done (H.mount staging target) u
          (on_error-eq-done _ (lift (H.mount staging target)) u rest) in
      let kept = λ (x : String). create_mount_point-depth H V target x s in
      ground (arith, mount-depth H V M staging target u bound q, kept target, kept q, made)

  pub node_publish_volume-effect :
      (req : NodePublishVolumeRequest) (s : H.State) {r : Unit {0}} {t : H.State}
      → node_publish_volume H req s ≡ done r t
      → V.depth t ≡ effect (publishes req) (V.depth s)
  unfolding node_publish_volume effect
  node_publish_volume-effect req s {r} {t} h = elim (Bool-cases (is_block req.volume_capability)) [
    | inl block ↦ fun_ext (
        bind_target-effect (join req.staging_target_path req.volume_id) req.target_path s {r = r}
          {t = t} (ground (arith, h, block)))
    | inr other ↦ absurd (ground (arith, h, other))
  ]

  pub node_unpublish_volume-effect :
      (id target : String) (s : H.State) {r : Unit {0}} {t : H.State}
      → node_unpublish_volume H target s ≡ done r t
      → V.depth t ≡ effect (unpublishes id target) (V.depth s)
  unfolding effect
  node_unpublish_volume-effect id target s h =
      fun_ext
        (delete_mount_point-depth H V M target s (node_unpublish_volume-deleted H V target s h))
